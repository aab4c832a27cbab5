-- ===== src/Jobs/Readding.antt =====
-- stolos/queue_backend/modify_job_state.py: `readd_subtask`. The two branches of `_ignore_if_queued`
-- obtain the add lock in the same way.
pub mod Outcomes
mod Examples
use stolos.Prelude.{
  ℕ, ◌+◌, Bool, true, false, not, ◌&&◌, Option, none, some, List, [], ◌∷◌, Text, if◌then◌else◌,
}
use stolos.Jobs.Actions.{
  Action, Exception, Result, ok, raised, pure, raise, try_finally, ◌>>=◌, ◌>>◌, code_error,
  job_already_queued, could_not_obtain_lock, assertion_error,
}
use stolos.Jobs.Backend.{release_lock}
use stolos.Jobs.Paths.{add}
use stolos.Jobs.Locking.{obtain_lock}
use stolos.Jobs.Adding.{pre_condition, queue_job, maybe_add_subtask}
use stolos.Jobs.Queues.{Queues}
use stolos.Jobs.Graph.{Graph}
use stolos.Jobs.Resetting.{reset_children}

module _ (q : Queues) (g : Graph) (queue_children : (app_name job_id : Text) → Action q.State Unit)
    (depth : ℕ) where
  open q use {State, Lock, backend, is_queued}

  -- `is_queued` and what a job that is queued already leads to
  abbrev pub check_queued : (app_name job_id : Text) → (ignore_if_queued : Bool) → Action State Bool
  check_queued app_name job_id ignore_if_queued s =
      let queued = is_queued app_name job_id s in
      (if queued && not ignore_if_queued then raised job_already_queued else ok queued, s)

  abbrev pub reset_descendants : Bool → (app_name job_id : Text) → Action State Unit
  reset_descendants reset app_name job_id =
      if reset
      then (do reset_children backend g queue_children depth app_name job_id []; pure tt)
      else pure tt

  unfoldable pub readd_locked :
      (app_name job_id : Text) → (force reset ignore_if_queued : Bool) → Action State Unit
  unfolding reset_children
  readd_locked app_name job_id force reset ignore_if_queued = do
    queued ← if force then pure false else check_queued app_name job_id ignore_if_queued
    reset_descendants reset app_name job_id
    if queued then pure tt else queue_job backend g.dag queue_children app_name job_id true none

  -- The job is not known to the backend yet.
  abbrev add_instead : (app_name job_id : Text) → Action State Bool
  add_instead app_name job_id = do
    added ← maybe_add_subtask backend g.dag queue_children app_name job_id true none
    if added then pure true else raise code_error

  abbrev or_add : (app_name job_id : Text) → Exception → Action State Bool
  or_add app_name job_id could_not_obtain_lock = add_instead app_name job_id
  or_add app_name job_id e = raise e

  abbrev under_lock : Option Lock → Action State Unit → Action State Bool
  under_lock none body = raise assertion_error
  under_lock (some lock) body = do try_finally body (release_lock backend lock); pure true

  unfoldable pub readd_subtask :
      (app_name job_id : Text) → (force reset ignore_if_queued : Bool) → Action State Bool
  unfolding readd_locked
  readd_subtask app_name job_id force reset ignore_if_queued =
      pre_condition backend g.dag queue_children app_name job_id λ s.
        let (lock, s₁) = obtain_lock backend add app_name job_id true true s in
        elim lock [
          | ok l ↦ under_lock l (readd_locked app_name job_id force reset ignore_if_queued) s₁
          | raised e ↦ or_add app_name job_id e s₁
        ]
