-- ===== src/Jobs/Parents/Examples.antt =====
-- A job of `b` whose parent is completed, or unknown.
use stolos.Prelude.{◌≡◌, refl, true, false, some, Text, txt}
use stolos.Jobs.Actions.{Action, ok, pure}
use stolos.Jobs.Backend.Memory.{Tables, memory, no_jobs}
use stolos.Jobs.Paths.{get_job_path, get_lock_path, join, completed_state, execute}
use stolos.Jobs.Graph.Samples.{graph}
use stolos.Jobs.Parents.{Verdict, ensure_parents_completed, check_parents, check_parent, is_in}
use stolos.Jobs.States.{check_state, validate_states, validate_state}
use stolos.Jobs.Locking.{obtain_lock}
use stolos.Jobs.Adding.{maybe_add_subtask, queue_job, set_state, set_state_unsafe}
use stolos.Jobs.Backend.{exists, set, create, release_lock}
use stolos.Jobs.Parents.Soundness.{IsSound, all_completed, ensure_parents_verdict}

abbrev no_children : Text → Text → Action Tables Unit
no_children app job = pure tt

abbrev parent_done : Tables
parent_done = memory.write (get_job_path (txt "a") (txt "1")) completed_state no_jobs

-- The parent is added, and its execute lock makes it promise to requeue the job.
abbrev waits : Verdict Text
waits = record {
  parents_completed = false;
  consume_queue = true;
  parent_lock = some (get_lock_path execute (txt "a") (txt "1"));
}

waits_verdict :
    (ensure_parents_completed memory graph no_children (txt "b") (txt "1") no_jobs).0 ≡ ok waits
unfolding ensure_parents_completed check_parents check_parent is_in check_state validate_states
    maybe_add_subtask obtain_lock queue_job set_state set_state_unsafe validate_state exists set
    create release_lock get_job_path get_lock_path join
waits_verdict = refl

ensure_parents_verdict_example :
    IsSound waits
    × (false
        ≡ all_completed memory graph no_children (graph.get_parents (txt "b") (txt "1")) no_jobs)
ensure_parents_verdict_example =
    ensure_parents_verdict memory graph no_children (txt "b") (txt "1") no_jobs waits waits_verdict
