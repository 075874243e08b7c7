-- ===== src/Choreography.antt =====
-- axo_vem/axo_vem/domain/choreography and application/choreography: workflow graphs and their runs.
pub mod Graph
pub mod Concurrency
pub mod Retries
pub mod Run
