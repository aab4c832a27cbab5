-- ===== src/Redis/Nodes/Examples.antt =====
-- Nodes on a server in memory.
use stolos.Redis.Keys.Memory.{memory}
use stolos.NodeStore.{IsNodeStore}
use stolos.Redis.Nodes.Contract.{redis_nodes, IsNoStandIn, redis-IsNodeStore}

redis-IsNodeStore_example : IsNodeStore IsNoStandIn (redis_nodes memory)
redis-IsNodeStore_example = redis-IsNodeStore memory
