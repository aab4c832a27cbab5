-- ===== src/Jobs/Children/Examples.antt =====
-- A job with two parents, of which one has completed.
use stolos.Prelude.{◌≡◌, refl, true, false, some, List, [], ◌∷◌, Text, txt}
use stolos.Jobs.Actions.{ok}
use stolos.Jobs.Backend.Memory.{memory, no_jobs}
use stolos.Jobs.Paths.{add, join, get_job_path, get_lock_path, pending_state}
use stolos.Jobs.Generators.{stops, yields, list_of}
use stolos.Jobs.Queues.Memory.{worker}
use stolos.Jobs.Graph.{Graph}
use stolos.Jobs.Graph.Samples.{graph}
use stolos.Jobs.Children.{queue_child, path_num_complete_parents}
use stolos.Jobs.Children.Counting.{after_parents, last_parent_queues}

abbrev joined : Graph
joined = record graph {
  get_parents = λ app job. yields (txt "a", job) (yields (txt "c", job) stops);
}

abbrev parents : List (Text × Text)
parents = (txt "a", txt "1") ∷ (txt "c", txt "1") ∷ []

-- The first of two parents is completed, and now the second.
last_parent_queues_example :
    let before = after_parents worker joined 9 (txt "b") (txt "1") 1 no_jobs in
    let (r, s') = queue_child worker joined 9 (txt "b", txt "1") before in
    ((a : Text) → memory.jobs before a ≡ [])
    × (r ≡ ok tt)
    × (memory.node s' (get_job_path (txt "b") (txt "1")) ≡ some pending_state)
    × (memory.jobs s' (txt "b") ≡ txt "1" ∷ [])
    × (memory.locked s' (get_lock_path add (txt "b") (txt "1")) ≡ false)
unfolding list_of queue_child after_parents path_num_complete_parents get_lock_path join
    get_job_path
last_parent_queues_example =
    last_parent_queues worker joined 9 (txt "b") (txt "1") (txt "date", txt "1") [] refl parents
      refl 1 true no_jobs refl refl refl refl refl
