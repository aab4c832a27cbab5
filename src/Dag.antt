-- ===== src/Dag.antt =====
-- stolos/dag_tools and the helpers of stolos/util.py that it uses: which jobs depend on which.
pub mod Product
pub mod Nodes
pub mod Tasks
pub mod Samples
pub mod Groups
pub mod Traversal
pub mod Building
pub mod MultiGraph
pub mod Metadata
pub mod Autofill
pub mod JobIds
pub mod Validation
