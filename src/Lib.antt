-- ===== src/Lib.antt =====
-- stolos: a scheduler that adds the jobs of a dag of applications to queues, and runs each job when
-- it is pulled off its queue. Every worker is a process of its own. They share nothing but a queue
-- backend, so the locks and queues in the backend are what keeps a job from running twice.
--
-- The parts, with the files that model them:
--
--   stolos/queue_backend/qbcli_redis.py, the backend on a redis server
--     Redis/Keys     what the lua scripts ask of the server for keys with an expiry (interface)
--     Redis/Sets     the same with sorted sets and counters (interface)
--     Redis/Nodes    the functions get, exists, delete, set, create and increment of the module
--     Redis/Lock     class Lock, its scripts l_lock, l_unlock and l_extend_lock, and the loop that
--                    extends locks in the background
--     Redis/Scripts  the scripts of LockingQueue: lq_put, lq_get, lq_extend_lock, lq_consume,
--                    lq_qsize_fast, lq_qsize_slow, lq_is_queued_h_k, lq_is_queued_item
--     Redis/Queue    the methods put, get, consume, size and is_queued of class LockingQueue, and the
--                    state machine of an item (Redis/Queue/Life)
--   stolos/queue_backend/qbcli_zookeeper.py, the backend on zookeeper
--     Zookeeper/Client the client of kazoo (interface), with an instance in Zookeeper/Client/Memory
--     Zookeeper/Nodes  the functions get, exists, delete, set, create and increment
--     Zookeeper/Queue  the methods consume, size and is_queued of class LockingQueue
--     Zookeeper/Lock   class Lock
--   stolos/queue_backend, what is built on any backend
--     NodeStore      qbcli_baseapi.py: what get, exists, delete, set and create promise (contract), which
--                    Redis/Nodes/Contract and Zookeeper/Nodes fill
--     Jobs/Backend   qbcli_baseapi.py: nodes, locks and queues (interface), with the functions get,
--                    exists, set and create and the errors they raise
--     Jobs/Paths     shared.py: the paths and the states of jobs
--     Jobs/States    read_job_state.py: validate_state and check_state
--     Jobs/Locking   locking.py: _obtain_lock and is_execute_locked
--     Jobs/Adding    modify_job_state.py: _set_state_unsafe, set_state, _queue, maybe_add_subtask
--     Jobs/Retries   modify_job_state.py: inc_retry_count
--     Jobs/Resetting modify_job_state.py: _recursively_reset_child_task_state
--     Jobs/Readding  modify_job_state.py: readd_subtask
--     Jobs/Children  modify_job_state.py: _maybe_queue_children
--     Jobs/Parents   modify_job_state.py: ensure_parents_completed
--     Jobs/Queues    qbcli_baseapi.py as one worker sees it: the rest of the calls (interface)
--     Jobs/Graph     what these ask of stolos/dag_tools (interface); Jobs/Generators, its generators
--     Jobs/Actions   stolos/exceptions.py, and statements that may raise
--   stolos/runner.py, what one process does with one job
--     Runner         main and its helpers
--   stolos/plugins/bash_plugin.py, what runs a bash job
--     Plugins/Bash   run, get_bash_cmd and main; Plugins/Bash/Runs has it run by Runner
--   stolos/dag_tools and stolos/util.py, which jobs there are
--     Dag/Tasks      the tasks configuration, and job id templates
--     Dag/Groups     traversal.py: dependency groups, with the value "all" replaced
--     Dag/Traversal  traversal.py: get_parents and get_children
--     Dag/Building   build.py: the edges of the dag, from the depends_on of each task, in a graph of
--                    networkx (Dag/MultiGraph, interface)
--     Dag/Metadata   the tasks configuration before it is validated
--     Dag/Validation build.py: the validation of dependency groups, tasks and the dag, and build_dag
--                    with it
--     Dag/Autofill   node.py: get_autofill_values
--     Dag/JobIds     node.py: create_job_id and passes_filter
--     Dag/Nodes      node.py: parse_job_id and the validation of a job id's parts; the configuration
--                    and its validation functions are parameters
--     Dag/Product    util.py: crossproduct
--   stolos/configuration_backend, where the tasks configuration is read from
--     Configuration  json_config.py and tasks_config_base.py: mappings and sequences, their `==`, to_dict
--                    and to_list (Configuration/Contents)
--     Configuration/RedisConfig redis_config.py: class RedisMapping
--   Prelude          texts, dicts, and Python's `in`, split, str and int on texts
--
-- A redis server runs one script at a time, so a script is a function from the server's store to a
-- reply and a store. Interleavings of clients are lists of moves, each a script that some client
-- sends or a number of seconds that pass. The server is a parameter: the records Keys and Redis
-- hold its commands with laws on what the commands that the scripts send return and change. A key
-- that expired is gone; EXPIREAT with a time that has passed deletes the key and answers 1.
-- Redis/Keys/Memory and Redis/Sets/Memory are servers that satisfy the laws. The queue backend of
-- Jobs is a parameter in the same way, with an instance in Jobs/Backend/Memory.
--
-- Times are whole seconds. A client's clock is an argument of the calls that read it, and each
-- theorem says how it relates to the server's. Texts are lists of bytes; what Python's isdigit and
-- int make of other digits than those of ASCII is a parameter. Loops run over the lists they are
-- given, but for the recursion over the descendants of a job: its fuel is how deep Python may
-- recurse, and it is enough where it exceeds the rank of the job's app in the dag.
--
-- Jobs/Adding takes two parameters: the record Dag (the parts of a job id and the filter, from
-- stolos/dag_tools), and `queue_children`, which stands for _maybe_queue_children and which runs
-- only where a job becomes completed. Runner puts the function of Jobs/Children in its place. The
-- generators of stolos/dag_tools are lists that stop or raise; what is done before a raise stays
-- done. The record Graph has them as parameters, and Dag/Traversal defines the two that name parents
-- and children. The plugin that runs the application is a parameter of Runner,
-- and Plugins/Bash/Runs puts the one for bash jobs there.
--
-- Not modelled: drawing the dag in stolos/dag_tools/build.py; get_job_type and get_task_names of
-- node.py, which look up one key; in stolos/configuration_backend, reading the json file, and
-- set_config, which is an example; put and get of the queue on zookeeper, which are calls of kazoo; in
-- stolos/util.py, loading objects by path, caching and conversions of bytes; the plugins that run Spark jobs;
-- argument parsing, logging, signals and threads. The scripts lq_lock, lq_completed and lq_unlock are sent by no code.
pub mod Prelude
pub mod Redis
pub mod Dag
pub mod Jobs
pub mod Runner
pub mod Configuration
pub mod NodeStore
pub mod Zookeeper
pub mod Plugins

