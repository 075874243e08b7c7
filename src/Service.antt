-- ===== src/Service.antt =====
-- axo_endpoint/service: the loops and handlers around the components.
pub mod BlobReplication
pub mod ContainerJobs
pub mod ContainerPool
pub mod ContainerNames
pub mod ResultSync
pub mod LeaderProxy
pub mod Dispatcher
