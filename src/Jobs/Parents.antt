-- ===== src/Jobs/Parents.antt =====
-- stolos/queue_backend/modify_job_state.py: `ensure_parents_completed`.
pub mod Soundness
mod Examples
use stolos.Prelude.{ℕ, Bool, true, false, not, Option, none, some, Text, [], ◌∷◌, if◌then◌else◌}
use stolos.Jobs.Actions.{Action, Result, ok, raised, pure, raise, lift, ◌>>=◌, ◌>>◌}
use stolos.Jobs.Backend.{Backend, release_lock}
use stolos.Jobs.Paths.{execute}
use stolos.Jobs.States.{Flags, Answer, answer, state, check_state}
use stolos.Jobs.Locking.{obtain_lock}
use stolos.Jobs.Adding.{maybe_add_subtask, as_pending, as_completed, as_skipped}
use stolos.Jobs.Generators.{Generated, stops, fails, yields}
use stolos.Jobs.Graph.{Graph}

-- `(parents_completed, consume_queue, parent_lock)`
pub record Verdict (Lock : Type 0) : Type 0 where
  pub parents_completed : Bool
  pub consume_queue : Bool
  pub parent_lock : Option Lock

-- How one round of the loop ends.
pub data Progress (Lock : Type 0) : Type 0 where
  continues breaks : Verdict Lock → Progress Lock

abbrev truthy : Answer → Bool
truthy (answer b) = b
truthy (state []) = false
truthy (state (c ∷ t)) = true

abbrev pub as_test : Result Answer → Result Bool
as_test (ok a) = ok (truthy a)
as_test (raised e) = raised e

module _ (b : Backend) (g : Graph)
    (queue_children : (app_name job_id : Text) → Action b.State Unit) where
  open b use {State, Lock}

  -- `check_state(app_name, job_id, …)`, which reads only
  unfoldable pub is_in : Flags → (app_name job_id : Text) → Action State Bool
  unfolding check_state
  is_in flags app_name job_id s =
      (as_test (check_state b app_name job_id false false flags false s), s)

  abbrev pub unqueue_me : Verdict Lock → Option Lock → Verdict Lock
  unqueue_me v lock = record v {
    parents_completed = false;
    consume_queue = true;
    parent_lock = lock;
  }

  abbrev pub incomplete : Verdict Lock → Verdict Lock
  incomplete v = record v { parents_completed = false }

  -- A parent whose execute lock could be taken promises to requeue the job if it is pending.
  abbrev pub if_pending : Verdict Lock → Lock → Bool → Action State (Progress Lock)
  if_pending v lock true = pure (continues (unqueue_me v (some lock)))
  if_pending v lock false = do release_lock b lock; pure (continues (incomplete v))

  abbrev pub promised :
      (app_name job_id : Text) → Verdict Lock → Option Lock → Action State (Progress Lock)
  promised app_name job_id v none = pure (continues (incomplete v))
  promised app_name job_id v (some lock) = is_in as_pending app_name job_id >>= if_pending v lock

  abbrev pub ask_parent :
      (app_name job_id : Text) → Verdict Lock → Option Lock → Action State (Progress Lock)
  ask_parent app_name job_id v (some lock) = pure (continues (incomplete v))
  ask_parent app_name job_id v none =
      obtain_lock b execute app_name job_id false true >>= promised app_name job_id v

  abbrev pub if_skipped :
      (app_name job_id : Text) → Verdict Lock → Bool → Action State (Progress Lock)
  if_skipped app_name job_id v true = pure (breaks (unqueue_me v v.parent_lock))
  if_skipped app_name job_id v false = ask_parent app_name job_id v v.parent_lock

  abbrev pub if_added :
      (app_name job_id : Text) → Verdict Lock → Bool → Action State (Progress Lock)
  if_added app_name job_id v added =
      (if added then pure false else is_in as_skipped app_name job_id)
      >>= if_skipped app_name job_id v

  -- A parent that is not completed.
  abbrev pub add_parent : (app_name job_id : Text) → Verdict Lock → Action State (Progress Lock)
  add_parent app_name job_id v =
      maybe_add_subtask b g.dag queue_children app_name job_id true none
      >>= if_added app_name job_id v

  -- The body of the loop
  abbrev pub if_completed :
      (app_name job_id : Text) → Verdict Lock → Bool → Action State (Progress Lock)
  if_completed app_name job_id v true = pure (continues v)
  if_completed app_name job_id v false = add_parent app_name job_id v

  unfoldable pub check_parent :
      (app_name job_id : Text) → Verdict Lock → Action State (Progress Lock)
  unfolding is_in
  check_parent app_name job_id v =
      is_in as_completed app_name job_id >>= if_completed app_name job_id v

  -- `break`, or the rest of the loop
  abbrev pub after_round :
      (Verdict Lock → Action State (Verdict Lock)) → Progress Lock → Action State (Verdict Lock)
  after_round rest (continues v) = rest v
  after_round rest (breaks v) = pure v

  unfoldable pub check_parents :
      Generated (Text × Text) → Verdict Lock → Action State (Verdict Lock)
  unfolding check_parent
  check_parents stops v = pure v
  check_parents (fails e) v = raise e
  check_parents (yields (app_name, job_id) rest) v =
      check_parent app_name job_id v >>= after_round (check_parents rest)

  unfoldable pub ensure_parents_completed : (app_name job_id : Text) → Action State (Verdict Lock)
  unfolding check_parents
  ensure_parents_completed app_name job_id =
      check_parents (g.get_parents app_name job_id)
        (record { parents_completed = true; consume_queue = false; parent_lock = none })
