-- ===== src/Jobs.antt =====
-- stolos/queue_backend: the state of jobs, kept in any queue backend.
pub mod Actions
pub mod Backend
pub mod Paths
pub mod States
pub mod Locking
pub mod Adding
pub mod Generators
pub mod Queues
pub mod Graph
pub mod Resetting
pub mod Readding
pub mod Children
pub mod Parents
pub mod Retries
