-- ===== src/Zookeeper.antt =====
-- stolos/queue_backend/qbcli_zookeeper.py: the queue backend on zookeeper.
pub mod Client
pub mod Nodes
pub mod Queue
pub mod Lock
mod Examples
