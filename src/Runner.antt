-- ===== src/Runner.antt =====
-- stolos/runner.py: what one process does with one job. The plugin that runs the application is a
-- parameter, as are the options of the command line. Logging is left out.
pub mod Parents
pub mod Outcomes
pub mod Crashes
pub mod Rejected
mod Examples
use stolos.Prelude.{
  ℕ, Bool, true, false, not, ◌&&◌, Option, none, some, List, [], ◌∷◌, Text, Dict, is_some, mem_text,
  if◌then◌else◌,
}
use stolos.Jobs.Actions.{
  Action, Exception, Result, ok, raised, pure, raise, require, on_error, ◌>>=◌, ◌>>◌, no_node,
  code_error, job_already_queued, invalid_job_id, user_warning, assertion_error,
}
use stolos.Jobs.Backend.{exists, release_lock}
use stolos.Jobs.Paths.{execute, get_job_path}
use stolos.Jobs.States.{check_state}
use stolos.Jobs.Locking.{obtain_lock}
use stolos.Jobs.Adding.{set_state, set_state_unsafe, as_pending, as_completed, as_failed}
use stolos.Jobs.Queues.{Queues}
use stolos.Jobs.Graph.{Graph}
use stolos.Jobs.Readding.{readd_subtask}
use stolos.Jobs.Children.{maybe_queue_children}
use stolos.Jobs.Parents.{Verdict, ensure_parents_completed, as_test}
use stolos.Jobs.Retries.{inc_retry_count}

-- The options that `main` reads from `ns`.
pub record Options : Type 0 where
  pub app_name : Text
  pub job_id : Option Text
  pub bypass_scheduler : Bool
  pub max_retry : ℕ

-- `if ns.job_id:`
abbrev pub given : Option Text → Option Text
given none = none
given (some []) = none
given (some (c ∷ t)) = some (c ∷ t)

module _ (q : Queues) (g : Graph) (depth : ℕ) (ns : Options)
    (job_type_func : Option Text → Action q.State Unit) where
  open q use {State, Lock, backend, get_job}
  open ns use {app_name, max_retry}

  abbrev pub children : (app_name job_id : Text) → Action State Unit
  children = maybe_queue_children q g depth

  -- `q.consume()`, which does nothing where the job id was given by hand
  abbrev pub consume : Action State Unit
  consume s = if is_some (given ns.job_id) then (ok tt, s) else q.consume app_name s

  abbrev unless_queued : Exception → Action State Unit
  unless_queued job_already_queued = pure tt
  unless_queued e = raise e

  -- `_send_to_back_of_queue`
  unfoldable pub send_to_back_of_queue : (job_id : Text) → Action State Unit
  send_to_back_of_queue job_id =
      on_error (do readd_subtask q g children depth app_name job_id true true false; consume)
        unless_queued

  abbrev release_if : Option Lock → Action State Unit
  release_if none = pure tt
  release_if (some lock) = release_lock backend lock

  unfoldable pub handle_failure : (job_id : Text) → Lock → Action State Unit
  unfolding send_to_back_of_queue
  handle_failure job_id lock = do
    exceeded ← inc_retry_count backend g.dag children app_name job_id max_retry
    if exceeded then consume else send_to_back_of_queue job_id
    release_lock backend lock

  unfoldable pub handle_success : (job_id : Text) → Lock → Action State Unit
  handle_success job_id lock = do
    set_state backend g.dag children app_name job_id as_completed
    consume
    release_lock backend lock

  -- `_handle_manually_given_job_id`
  unfoldable pub handle_manually_given_job_id : (job_id : Text) → Action State (Option Lock)
  unfolding exists
  handle_manually_given_job_id job_id s =
      if exists backend (get_job_path app_name job_id) s
      then (raised user_warning, s)
      else (do
        lock ← obtain_lock backend execute app_name job_id true false
        set_state backend g.dag children app_name job_id as_pending
        pure lock)
          s

  -- Outcomes of `dt.parse_job_id`
  abbrev if_parsed : (job_id : Text) → Result (Dict Text) → Action State Bool
  if_parsed job_id (ok parts) = pure true
  if_parsed job_id (raised invalid_job_id) = do
    consume
    set_state_unsafe backend g.dag children app_name job_id as_failed
    pure false
  if_parsed job_id (raised e) = raise e

  unfoldable pub validate_job_id : Option Text → Action State Bool
  validate_job_id none = pure false
  validate_job_id (some job_id) = if_parsed job_id (g.dag.parse_job_id app_name job_id)

  abbrev is_available : (job_id : Text) → Action State Bool
  is_available job_id s =
      (as_test (check_state backend app_name job_id true false as_pending false s), s)

  unfoldable pub get_lock_if_job_is_runnable : (job_id : Text) → Action State (Option Lock)
  get_lock_if_job_is_runnable job_id = do
    available ← is_available job_id
    if available then obtain_lock backend execute app_name job_id false true else pure none

  -- What the answer of `ensure_parents_completed` leads to.
  abbrev pub leave_queue : (job_id : Text) → Verdict Lock → Action State Unit
  leave_queue job_id v =
      if v.consume_queue
      then (do consume; release_if v.parent_lock)
      else send_to_back_of_queue job_id

  abbrev pub after_parents : (job_id : Text) → Lock → Verdict Lock → Action State Bool
  after_parents job_id lock v =
      if v.parents_completed
      then (do require (not (is_some v.parent_lock)) assertion_error; pure true)
      else (do leave_queue job_id v; release_lock backend lock; pure false)

  unfoldable pub parents_completed : (job_id : Text) → Lock → Action State Bool
  unfolding send_to_back_of_queue
  parents_completed job_id lock =
      ensure_parents_completed backend g children app_name job_id >>= after_parents job_id lock

  -- How the application ended. An exception other than CodeError is logged, and that is all.
  abbrev pub after_job : (job_id : Text) → Lock → Result Unit → Action State Unit
  after_job job_id lock (ok _) = handle_success job_id lock
  after_job job_id lock (raised code_error) = handle_failure job_id lock
  after_job job_id lock (raised _) = pure tt

  unfoldable pub run_job : (job_id : Text) → Lock → Action State Unit
  unfolding handle_success handle_failure
  run_job job_id lock s = let (r, s') = job_type_func (some job_id) s in after_job job_id lock r s'

  abbrev pub if_ready : (job_id : Text) → Lock → Bool → Action State Unit
  if_ready job_id lock ready = if ready then run_job job_id lock else pure tt

  abbrev pub if_lock : (job_id : Text) → Option Lock → Action State Unit
  if_lock job_id none = send_to_back_of_queue job_id
  if_lock job_id (some lock) = parents_completed job_id lock >>= if_ready job_id lock

  -- NoNodeError: the job is queued, but its state does not exist.
  abbrev pub if_runnable : (job_id : Text) → Result (Option Lock) → Action State Unit
  if_runnable job_id (ok lock) = if_lock job_id lock
  if_runnable job_id (raised no_node) = consume
  if_runnable job_id (raised e) = raise e

  unfoldable pub run_queued : (job_id : Text) → Action State Unit
  unfolding get_lock_if_job_is_runnable
  run_queued job_id s =
      let (lock, s') = get_lock_if_job_is_runnable job_id s in if_runnable job_id lock s'

  abbrev pub or_nothing : Option Text → Bool → Action State Unit
  or_nothing (some job_id) true = run_queued job_id
  or_nothing _ _ = pure tt

  unfoldable pub run_next : Action State Unit
  unfolding run_queued validate_job_id
  run_next s =
      let (job_id, s') = get_job app_name s in (validate_job_id job_id >>= or_nothing job_id) s'

  abbrev pub schedule : Option Text → Action State Unit
  schedule none = run_next
  schedule (some job_id) = handle_manually_given_job_id job_id >>= if_lock job_id

  unfoldable pub main : Action State Unit
  unfolding run_next
  main = do
    require (mem_text app_name g.get_task_names) assertion_error
    if ns.bypass_scheduler
        then (do require (is_some (given ns.job_id)) assertion_error; job_type_func ns.job_id)
        else schedule (given ns.job_id)
