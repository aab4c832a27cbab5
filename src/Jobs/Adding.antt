-- ===== src/Jobs/Adding.antt =====
-- stolos/queue_backend/modify_job_state.py: `_set_state_unsafe`, `_queue` and `maybe_add_subtask`.
pub mod Outcomes
pub mod Stored
mod Examples
use stolos.Prelude.{
  ℕ, zero, suc, Bool, true, false, not, ◌&&◌, Option, none, some, List, [], ◌∷◌, Text, Dict,
  if◌then◌else◌,
}
use stolos.Jobs.Actions.{
  Action, Result, ok, raised, pure, raise, lift, require, try_finally, ◌>>=◌, ◌>>◌, assertion_error,
}
use stolos.Jobs.Backend.{Backend, exists, set, create, release_lock}
use stolos.Jobs.Paths.{add, get_job_path}
use stolos.Jobs.States.{Flags, validate_state}
use stolos.Jobs.Locking.{obtain_lock}

-- What the job states need of stolos/dag_tools: the parts of a job id, and whether the job should
-- run at all.
pub record Dag : Type 0 where
  pub parse_job_id : (app_name job_id : Text) → Result (Dict Text)
  pub passes_filter : (app_name job_id : Text) → Result Bool

abbrev is_truthy : Dict Text → Bool
is_truthy [] = false
is_truthy (entry ∷ d) = true

-- `if priority:`
abbrev given_priority : Option ℕ → Option ℕ
given_priority none = none
given_priority (some zero) = none
given_priority (some (suc n)) = some (suc n)

abbrev pub as_pending : Flags
as_pending = record { pending = true; completed = false; failed = false; skipped = false }

abbrev pub as_completed : Flags
as_completed = record { pending = false; completed = true; failed = false; skipped = false }

abbrev pub as_failed : Flags
as_failed = record { pending = false; completed = false; failed = true; skipped = false }

abbrev pub as_skipped : Flags
as_skipped = record { pending = false; completed = false; failed = false; skipped = true }

-- `queue_children` stands for `_maybe_queue_children`, which runs before a job is stored as
-- completed, and which comes to call the functions of this module in turn.
module _ (b : Backend) (d : Dag)
    (queue_children : (app_name job_id : Text) → Action b.State Unit) where
  open b use {State, Lock, put}
  open d use {parse_job_id, passes_filter}

  -- `util.pre_condition(dt.parse_job_id)`: the id is parsed, and its parts are not an empty dict.
  abbrev pub pre_condition :
      {A : Type 0} → (app_name job_id : Text) → Action State A → Action State A
  pre_condition app_name job_id body = do
    parts ← lift (parse_job_id app_name job_id)
    require (is_truthy parts) assertion_error
    body

  abbrev store : (path state : Text) → Action State Unit
  store path state s = if exists b path s then set b path state s else create b path state s

  -- `_set_state_unsafe`
  unfoldable pub set_state_unsafe : (app_name job_id : Text) → Flags → Action State Unit
  unfolding exists set create validate_state
  set_state_unsafe app_name job_id flags = do
    state ← lift (validate_state flags)
    if flags.completed then queue_children app_name job_id else pure tt
    store (get_job_path app_name job_id) state

  unfoldable pub set_state : (app_name job_id : Text) → Flags → Action State Unit
  unfolding set_state_unsafe
  set_state app_name job_id flags =
      pre_condition app_name job_id (set_state_unsafe app_name job_id flags)

  abbrev put_job : (app_name job_id : Text) → Option ℕ → Action State Unit
  put_job app_name job_id priority s = (ok tt, put app_name job_id priority s)

  abbrev queue_valid : (app_name job_id : Text) → Bool → Option ℕ → Action State Unit
  queue_valid app_name job_id queue priority = do
    set_state app_name job_id as_pending
    if queue then put_job app_name job_id (given_priority priority) else pure tt

  -- `_queue`
  unfoldable pub queue_job :
      (app_name job_id : Text) → (queue : Bool) → (priority : Option ℕ) → Action State Unit
  unfolding set_state
  queue_job app_name job_id queue priority = do
    passes ← lift (passes_filter app_name job_id)
    if passes
        then queue_valid app_name job_id queue priority
        else set_state app_name job_id as_skipped

  abbrev queue_under : Lock → Action State Unit → Action State Bool
  queue_under lock body = do try_finally body (release_lock b lock); pure true

  abbrev if_obtained : Option Lock → Action State Unit → Action State Bool
  if_obtained none body = pure false
  if_obtained (some lock) body = queue_under lock body

  unfoldable pub maybe_add_subtask :
      (app_name job_id : Text) → (queue : Bool) → (priority : Option ℕ) → Action State Bool
  unfolding exists release_lock
  maybe_add_subtask app_name job_id queue priority = pre_condition app_name job_id λ s.
      if exists b (get_job_path app_name job_id) s
      then (ok false, s)
      else (do
        lock ← obtain_lock b add app_name job_id false false
        if_obtained lock (queue_job app_name job_id queue priority))
          s
