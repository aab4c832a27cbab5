-- ===== src/Jobs/Retries.antt =====
-- stolos/queue_backend/modify_job_state.py: `inc_retry_count`.
pub mod Limit
mod Examples
use stolos.Prelude.{
  ℕ, ◌+◌, Bool, true, false, Option, none, some, Text, txt, leb, if◌then◌else◌, decimal, int_of,
}
use stolos.Jobs.Actions.{Action, pure, raise, ◌>>=◌, ◌>>◌, value_error}
use stolos.Jobs.Backend.{Backend, get, exists, set, create}
use stolos.Jobs.Paths.{join, get_job_path}
use stolos.Jobs.Adding.{Dag, pre_condition, set_state, as_failed}

module _ (b : Backend) (d : Dag)
    (queue_children : (app_name job_id : Text) → Action b.State Unit) where
  open b use {State}

  abbrev pub retry_path : (app_name job_id : Text) → Text
  retry_path app_name job_id = join (get_job_path app_name job_id) (txt "retry_count")

  abbrev or_value_error : Option ℕ → Action State ℕ
  or_value_error none = raise value_error
  or_value_error (some n) = pure n

  -- The count so far; the first call creates the node.
  unfoldable pub retry_count : (path : Text) → Action State ℕ
  unfolding exists
  retry_count path s =
      if exists b path s
      then (do text ← get b path; or_value_error (int_of text)) s
      else (do create b path (txt "0"); pure 0) s

  abbrev pub count_failure : (app_name job_id : Text) → (max_retry cnt : ℕ) → Action State Bool
  count_failure app_name job_id max_retry cnt = do
    if leb max_retry (cnt + 1)
        then set_state b d queue_children app_name job_id as_failed
        else pure tt
    set b (retry_path app_name job_id) (decimal (cnt + 1))
    pure (leb max_retry (cnt + 1))

  -- The result says whether the limit is reached.
  unfoldable pub inc_retry_count : (app_name job_id : Text) → (max_retry : ℕ) → Action State Bool
  unfolding retry_count
  inc_retry_count app_name job_id max_retry = pre_condition b d queue_children app_name job_id (do
    cnt ← retry_count (retry_path app_name job_id)
    count_failure app_name job_id max_retry cnt)
