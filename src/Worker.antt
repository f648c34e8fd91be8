-- ===== src/Worker.antt =====
-- worker/src and worker-shared: the broker.
pub mod Types
pub mod Bucket
pub mod Keys
pub mod Checked
pub mod Instants
pub mod Platform
pub mod Policy
pub mod Pointer
pub mod Jobs
pub mod Documents
pub mod Descriptors
pub mod Finalize
pub mod Opening
pub mod Auth
pub mod Requests
pub mod Uploads
pub mod Publications
pub mod Courses
pub mod Streams
pub mod Accepted
pub mod Maintenance
pub mod Concurrent
pub mod Queue
mod Tests
