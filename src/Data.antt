-- ===== src/Data.antt =====
-- axo_endpoint/core/data: registered data, its chunks, and the buckets that it is registered into.
pub mod Chunking
pub mod Models
pub mod Registry
pub mod Buckets
pub mod Requests
pub mod Results
