-- ===== src/Examples.antt =====
-- The theorems at concrete inputs.
mod Consensus
mod Choreography
mod Data
mod Functions
mod Wire
mod Sync
mod Loop
mod Service
mod Results
mod Disk
