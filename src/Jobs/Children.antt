-- ===== src/Jobs/Children.antt =====
-- stolos/queue_backend/modify_job_state.py: `_maybe_queue_children`, which runs before a job becomes
-- completed. The jobs that it adds become pending or skipped, so the calls below it never come back
-- to it: there `no_children` stands in its place.
pub mod Counting
mod Examples
use stolos.Prelude.{ℕ, Bool, true, false, Option, none, some, Text, txt, leb, length, if◌then◌else◌}
use stolos.Jobs.Actions.{Action, Result, ok, pure, lift, ◌>>=◌, ◌>>◌}
use stolos.Jobs.Paths.{join, get_job_path}
use stolos.Jobs.Generators.{for_each, list_of}
use stolos.Jobs.Queues.{Queues}
use stolos.Jobs.Graph.{Graph}
use stolos.Jobs.Readding.{readd_subtask}

-- `_path_num_complete_parents`
unfoldable pub path_num_complete_parents : (app_name job_id : Text) → Text
path_num_complete_parents app_name job_id =
    join (get_job_path app_name job_id) (txt "num_complete_parents")

module _ (q : Queues) (g : Graph) (depth : ℕ) where
  open q use {State, increment}

  abbrev pub no_children : (app_name job_id : Text) → Action State Unit
  no_children app_name job_id = pure tt

  abbrev incremented : Text → Action State ℕ
  incremented path s = let (n, s') = increment path s in (ok n, s')

  abbrev pub readd : (app_name job_id : Text) → Action State Unit
  readd app_name job_id = do
    readd_subtask q g no_children depth app_name job_id false false true
    pure tt

  -- One more parent of the child is completed; the last one queues the child. `check_state` serves
  -- a warning only.
  unfoldable pub queue_child : Text × Text → Action State Unit
  queue_child (app_name, job_id) = do
    parents ← lift (list_of (g.get_parents app_name job_id))
    n ← incremented (path_num_complete_parents app_name job_id)
    if leb (length parents) n then readd app_name job_id else pure tt

  unfoldable pub maybe_queue_children : (parent_app_name parent_job_id : Text) → Action State Unit
  unfolding queue_child
  maybe_queue_children parent_app_name parent_job_id =
      for_each queue_child (g.get_children parent_app_name parent_job_id)
