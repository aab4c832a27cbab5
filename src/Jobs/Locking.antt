-- ===== src/Jobs/Locking.antt =====
-- stolos/queue_backend/locking.py: the two locks of a job. `timeout` and `blocking` go to the
-- backend's `acquire`, whose outcome is all that counts here.
use stolos.Prelude.{Bool, not, ◌&&◌, Option, none, some, Text, starts_with, if◌then◌else◌}
use stolos.Jobs.Actions.{
  Action, Exception, ok, pure, raise, require, ◌>>=◌, ◌>>◌, could_not_obtain_lock,
  lock_already_acquired, assertion_error,
}
use stolos.Jobs.Backend.{Backend, exists}
use stolos.Jobs.Paths.{LockType, execute, get_job_path, get_lock_path}

module _ (b : Backend) where
  open b use {State, Lock, locked, acquire}

  -- The call found no lock: it raises, or returns False.
  abbrev refuse : (raise_on_error : Bool) → Exception → Action State (Option Lock)
  refuse raise_on_error e = if raise_on_error then raise e else pure none

  abbrev or_refuse : (raise_on_error : Bool) → Option Lock → Action State (Option Lock)
  or_refuse raise_on_error none = refuse raise_on_error lock_already_acquired
  or_refuse raise_on_error (some l) = pure (some l)

  abbrev acquired : Text → Action State (Option Lock)
  acquired path s = let (l, s') = acquire path s in (ok l, s')

  -- `_obtain_lock`; none stands for False
  unfoldable pub obtain_lock :
      LockType
      → (app_name job_id : Text) → (raise_on_error safe : Bool) → Action State (Option Lock)
  unfolding exists
  obtain_lock typ app_name job_id raise_on_error safe s =
      let path = get_lock_path typ app_name job_id in
      if safe && not (exists b (get_job_path app_name job_id) s)
      then refuse raise_on_error could_not_obtain_lock s
      else (do
        require (starts_with (get_job_path app_name job_id) path) assertion_error
        l ← acquired path
        or_refuse raise_on_error l)
          s

  abbrev pub is_execute_locked : (app_name job_id : Text) → State → Bool
  is_execute_locked app_name job_id s = locked s (get_lock_path execute app_name job_id)
