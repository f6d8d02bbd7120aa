-- ===== src/JobQueue.antt =====
-- src/pipeline/job_queue.py: the queue of scrape jobs. The operations are in Insert, Lease, Complete
-- and Reap; the other modules prove what they keep and what they promise.
pub mod Config
pub mod Hosts
pub mod Insert
pub mod Lease
pub mod Complete
pub mod Reap
pub mod Invariant
pub mod Rows
pub mod Requests
pub mod Admission
pub mod Uploads
pub mod Settling
pub mod Expiry
pub mod Lifecycle
mod Examples
