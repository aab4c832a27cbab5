-- ===== src/Redis.antt =====
-- stolos/queue_backend/qbcli_redis.py: the redis queue backend, over an abstract server.
pub mod Keys
pub mod Sets
pub mod Nodes
pub mod Lock
pub mod Scripts
pub mod Queue
