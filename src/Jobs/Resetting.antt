-- ===== src/Jobs/Resetting.antt =====
-- stolos/queue_backend/modify_job_state.py: `_recursively_reset_child_task_state`. The set `so_far`
-- is shared by all the calls, so it is passed on from one to the next. `depth` is how deep Python
-- may recurse; the call that goes deeper raises.
pub mod Termination
pub mod Descendants
mod Examples
use stolos.Prelude.{
  ℕ, zero, suc, Bool, true, false, ◌&&◌, ◌||◌, List, [], ◌∷◌, Text, text_eq, if◌then◌else◌,
}
use stolos.Jobs.Actions.{Action, pure, raise, ◌>>=◌, ◌>>◌, recursion_error, ok}
use stolos.Jobs.Generators.{Generated, stops, fails, yields}
use stolos.Jobs.Backend.{Backend, exists}
use stolos.Jobs.Paths.{get_job_path}
use stolos.Jobs.Adding.{set_state, as_pending}
use stolos.Jobs.Graph.{Graph}

abbrev pub Keys : Type 0
Keys = List (Text × Text)

abbrev pub mem_key : Text → Text → Keys → Bool
mem_key app job [] = false
mem_key app job ((a, j) ∷ keys) = (text_eq app a && text_eq job j) || mem_key app job keys

module _ (b : Backend) (g : Graph)
    (queue_children : (app_name job_id : Text) → Action b.State Unit) where
  open b use {State}

  abbrev pub Reset : Type 0
  Reset = (app_name job_id : Text) → Keys → Action State Keys

  -- A child that is known to the backend is set to pending, and its children in turn.
  unfoldable pub reset_child : Reset → Reset
  unfolding exists
  reset_child recurse app_name job_id so_far s =
      let key : Text × Text = (app_name, job_id) in
      if mem_key app_name job_id so_far
      then (ok so_far, s)
      else if exists b (get_job_path app_name job_id) s
      then (do
        set_state b g.dag queue_children app_name job_id as_pending
        recurse app_name job_id (key ∷ so_far))
          s
      else (ok (key ∷ so_far), s)

  unfoldable pub reset_each : Reset → Generated (Text × Text) → Keys → Action State Keys
  reset_each recurse stops so_far = pure so_far
  reset_each recurse (fails e) so_far = raise e
  reset_each recurse (yields (app_name, job_id) rest) so_far =
      reset_child recurse app_name job_id so_far >>= λ so_far'. reset_each recurse rest so_far'

  unfoldable pub reset_children : (depth : ℕ) → Reset
  unfolding reset_each
  reset_children zero app_name job_id so_far = raise recursion_error
  reset_children (suc depth) app_name job_id so_far =
      reset_each (reset_children depth) (g.get_children app_name job_id) so_far
