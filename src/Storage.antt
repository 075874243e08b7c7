-- ===== src/Storage.antt =====
-- axo_endpoint/core/storage: keys and the in-memory backend.
pub mod Key
pub mod InMemory
pub mod Backend
