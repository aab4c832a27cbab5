-- ===== src/Runner/Examples.antt =====
-- Runs of the task `b` on a backend in memory.
use stolos.Prelude.{◌≡◌, refl, true, false, none, some, [], Option, Text, txt}
use stolos.Jobs.Actions.{Action, ok, pure, raise, value_error}
use stolos.Jobs.Backend.Memory.{Tables, memory, no_jobs}
use stolos.Jobs.Paths.{
  execute, join, get_job_path, get_lock_path, pending_state, completed_state, failed_state,
}
use stolos.Jobs.Generators.{for_each, list_of}
use stolos.Jobs.Queues.Memory.{worker}
use stolos.Jobs.Graph.Samples.{graph}
use stolos.Jobs.Children.{maybe_queue_children}
use stolos.Jobs.Parents.Soundness.{all_completed}
use stolos.Runner.{get_lock_if_job_is_runnable, main}
use stolos.Runner.Outcomes.{scheduled, IsReady, main_completes}
use stolos.Runner.Crashes.{main_crashes}
use stolos.Runner.Rejected.{main_invalid}

abbrev app : Text
app = txt "b"

abbrev job : Text
job = txt "1"

abbrev path : Text
path = get_job_path app job

abbrev lock_at : Text
lock_at = get_lock_path execute app job

-- The job's parent is completed, and the job is queued.
abbrev waiting : Tables
waiting = memory.put app job none (
    memory.write path pending_state
      (memory.write (get_job_path (txt "a") job) completed_state no_jobs))

abbrev taken : Tables
taken = (memory.acquire lock_at (worker.get_job app waiting).1).1

abbrev succeeds : Option Text → Action Tables Unit
succeeds job_id = pure tt

abbrev crashes : Option Text → Action Tables Unit
crashes job_id = raise value_error

-- The job is stored as completed, consumed and unlocked.
abbrev done : Tables
done = (memory.release lock_at (worker.consume app (memory.write path completed_state taken)).1).1

waiting-IsReady :
    IsReady worker graph 9 app 5 succeeds job (txt "date", job) [] lock_at waiting taken
unfolding list_of all_completed get_lock_path get_job_path join
waiting-IsReady = record {
  listed = refl;
  queued = refl;
  parsed = refl;
  pending = refl;
  taken = refl;
  parents_named = refl;
  parents_done = refl;
}

crashing-IsReady :
    IsReady worker graph 9 app 5 crashes job (txt "date", job) [] lock_at waiting taken
unfolding list_of all_completed get_lock_path get_job_path join
crashing-IsReady = record {
  listed = refl;
  queued = refl;
  parsed = refl;
  pending = refl;
  taken = refl;
  parents_named = refl;
  parents_done = refl;
}

main_completes_example :
    let (r, s') = main worker graph 9 (scheduled app 5) succeeds waiting in
    (r ≡ ok tt)
    × (s' ≡ done)
    × (memory.node s' path ≡ some completed_state)
    × (memory.locked s' lock_at ≡ false)
unfolding maybe_queue_children for_each get_lock_path get_job_path join
main_completes_example =
    main_completes worker graph 9 app 5 succeeds job (txt "date", job) [] lock_at waiting taken
      waiting-IsReady taken refl taken refl refl refl refl

main_crashes_example :
    let (r, s') = main worker graph 9 (scheduled app 5) crashes waiting in
    (r ≡ ok tt)
    × (s' ≡ taken)
    × (s'.item ≡ some job)
    × (memory.node s' path ≡ some pending_state)
    × (memory.locked s' lock_at ≡ true)
    × (get_lock_if_job_is_runnable worker graph 9 (scheduled app 5) crashes job s' ≡ (ok none, s'))
main_crashes_example =
    main_crashes worker graph 9 app 5 crashes job (txt "date", job) [] lock_at waiting taken
      crashing-IsReady taken value_error refl (cc) refl refl refl

abbrev bad : Tables
bad = memory.put app (txt "bad") none no_jobs

main_invalid_example : main worker graph 9 (scheduled app 5) succeeds bad ≡ (
  ok tt,
  memory.write
      (get_job_path app (txt "bad"))
      failed_state
      (worker.consume app (worker.get_job app bad).1).1,
)
main_invalid_example =
    main_invalid worker graph 9 app 5 succeeds (txt "bad") bad refl refl refl refl
