-- ===== src/Jobs/Parents/Soundness.antt =====
-- What `ensure_parents_completed` of stolos/queue_backend/modify_job_state.py promises to
-- stolos/runner.py, which asserts that no parent's lock comes with a positive answer.
use stolos.Prelude.{
  ◌≡◌, refl, ◌∙◌, Bool, true, false, ◌&&◌, Option, none, some, arith, Text, text_eq, is_some,
  Bool-cases, inl, inr, if◌then◌else◌,
}
use stolos.Jobs.Actions.{
  Action, Result, ok, raised, OnOk, OnOk-bind, bind_ok, pure, OnOk-at, OnOk-mono,
}
use stolos.Jobs.Backend.{Backend, release_lock}
use stolos.Jobs.Paths.{get_job_path, completed_state, execute}
use stolos.Jobs.States.{validate_states}
use stolos.Jobs.Locking.{obtain_lock}
use stolos.Jobs.Generators.{Generated, stops, fails, yields, list_of}
use stolos.Jobs.Adding.{as_completed, as_pending, as_skipped, maybe_add_subtask}
use stolos.Jobs.Graph.{Graph}
use stolos.Jobs.Parents.{
  Verdict, Progress, continues, breaks, is_in, check_parent, check_parents, promised, ask_parent,
  after_round, add_parent, if_pending, if_skipped, if_added, if_completed, incomplete,
  ensure_parents_completed,
}

-- A positive answer comes without a lock and without a request to consume the job, and a lock comes
-- with that request.
abbrev pub IsSound : {Lock : Type 0} → Verdict Lock → Type 0
IsSound v =
    (v.parents_completed ≡ true → (v.consume_queue ≡ false) × (v.parent_lock ≡ none))
    × (is_some v.parent_lock ≡ true → v.consume_queue ≡ true)

abbrev so_far : {Lock : Type 0} → Progress Lock → Verdict Lock
so_far (continues v) = v
so_far (breaks v) = v

-- The verdict is sound, and it is negative.
abbrev IsNo : {Lock : Type 0} → Progress Lock → Type 0
IsNo p = IsSound (so_far p) × ((so_far p).parents_completed ≡ false)

abbrev pub is_ok : {A : Type 0} → Result A → Bool
is_ok (ok a) = true
is_ok (raised e) = false

abbrev state_is : Option Text → Text → Bool
state_is none st = false
state_is (some got) st = text_eq got st

module _ (b : Backend) (g : Graph)
    (queue_children : (app_name job_id : Text) → Action b.State Unit) where
  open b use {State, Lock, node}

  -- The backend has every parent as completed.
  unfoldable pub all_completed : Generated (Text × Text) → State → Bool
  all_completed stops s = true
  all_completed (fails e) s = true
  all_completed (yields (app, job) rest) s =
      state_is (node s (get_job_path app job)) completed_state && all_completed rest s

  is_completed_lem :
      (app job : Text) (s : State)
      → is_in b g queue_children as_completed app job s
        ≡ (ok (state_is (node s (get_job_path app job)) completed_state), s)
  unfolding is_in validate_states
  is_completed_lem app job s = ground arith

  module _ (app job : Text) (v : Verdict Lock) (sound : IsSound v) where
    if_pending-IsNo :
        (lock : Lock) (pending : Bool) (s : State)
        → v.parent_lock ≡ none
        → OnOk IsNo (if_pending b g queue_children v lock pending s).0
    if_pending-IsNo lock true s at = ground arith
    if_pending-IsNo lock false s at =
        OnOk-bind IsNo (release_lock b lock)
          (λ _. pure (continues (incomplete b g queue_children v))) s (λ _ _. ground arith)

    promised-IsNo :
        (l : Option Lock) (s : State)
        → v.parent_lock ≡ none
        → OnOk IsNo (promised b g queue_children app job v l s).0
    promised-IsNo none s at = ground arith
    promised-IsNo (some lock) s at =
        OnOk-bind IsNo (is_in b g queue_children as_pending app job)
          (if_pending b g queue_children v lock) s (λ p _. if_pending-IsNo lock p _ at)

    ask_parent-IsNo :
        (l : Option Lock) (s : State)
        → v.parent_lock ≡ l
        → OnOk IsNo (ask_parent b g queue_children app job v l s).0
    ask_parent-IsNo (some lock) s at = ground arith
    ask_parent-IsNo none s at =
        OnOk-bind IsNo (obtain_lock b execute app job false true)
          (promised b g queue_children app job v) s (λ l _. promised-IsNo l _ at)

    if_skipped-IsNo :
        (skipped : Bool) (s : State)
        → OnOk IsNo (if_skipped b g queue_children app job v skipped s).0
    if_skipped-IsNo true s = ground arith
    if_skipped-IsNo false s = ask_parent-IsNo v.parent_lock s refl

    add_parent-IsNo : (s : State) → OnOk IsNo (add_parent b g queue_children app job v s).0
    add_parent-IsNo s =
        OnOk-bind IsNo (maybe_add_subtask b g.dag queue_children app job true none)
          (if_added b g queue_children app job v) s
          (λ added _.
            OnOk-bind IsNo
              (if added then pure false else is_in b g queue_children as_skipped app job)
              (if_skipped b g queue_children app job v) _ (λ skipped _. if_skipped-IsNo skipped _))

  -- Sound, and positive exactly if `v` was and the parents are completed.
  abbrev IsVerdict : Verdict Lock → Bool → Verdict Lock → Type 0
  IsVerdict v done v' = IsSound v' × (v'.parents_completed ≡ (v.parents_completed && done))

  check_parent_done :
      (app job : Text) (v : Verdict Lock) (s : State)
      → state_is (node s (get_job_path app job)) completed_state ≡ true
      → check_parent b g queue_children app job v s ≡ (ok (continues v), s)
  unfolding check_parent
  check_parent_done app job v s done =
      bind_ok (is_in b g queue_children as_completed app job)
        (if_completed b g queue_children app job v) (is_completed_lem app job s)
      ∙ rw done refl

  check_parent-IsNo :
      (app job : Text) (v : Verdict Lock) (s : State)
      → IsSound v
      → state_is (node s (get_job_path app job)) completed_state ≡ false
      → OnOk IsNo (check_parent b g queue_children app job v s).0
  unfolding check_parent
  check_parent-IsNo app job v s sound not_done =
      rw
        (bind_ok (is_in b g queue_children as_completed app job)
          (if_completed b g queue_children app job v) (is_completed_lem app job s))
        (rw not_done (add_parent-IsNo app job v sound s))

  check_parents_lem :
      (items : Generated (Text × Text)) (v : Verdict Lock) (s : State)
      → IsSound v
      → OnOk (IsVerdict v (all_completed items s)) (check_parents b g queue_children items v s).0
  unfolding check_parents all_completed
  check_parents_lem stops v s sound = ground arith
  check_parents_lem (fails e) v s sound = tt
  check_parents_lem (yields (app, job) rest) v s sound =
      let next : Progress Lock → Action State (Verdict Lock) =
        after_round b g queue_children (check_parents b g queue_children rest) in
      let m = check_parent b g queue_children app job v in
      elim (Bool-cases (state_is (node s (get_job_path app job)) completed_state)) [
        | inl done ↦
            rw (done, bind_ok m next (check_parent_done app job v s done))
              (check_parents_lem rest v s sound)
        | inr more ↦ rw more (
            OnOk-bind (IsVerdict v false) m next s (λ p e.
              after_no p (m s).1 (OnOk-at IsNo e (check_parent-IsNo app job v s sound more))
                (check_parents_lem rest)))
      ]
    where
      after_no :
          (p : Progress Lock) (s' : State)
          → IsNo p
          → ((v' : Verdict Lock) (t : State)
              → IsSound v'
              → OnOk
                  (IsVerdict v' (all_completed rest t))
                  (check_parents b g queue_children rest v' t).0)
          → OnOk
              (IsVerdict v false)
              (after_round b g queue_children (check_parents b g queue_children rest) p s').0
      after_no (breaks v') s' neg ih = ground arith
      after_no (continues v') s' neg ih =
          OnOk-mono (IsVerdict v' (all_completed rest s')) (IsVerdict v false)
            (check_parents b g queue_children rest v' s').0 (λ a h. ground arith) (ih v' s' neg.0)

  -- Where `ensure_parents_completed` returns, its first answer says whether the backend had every
  -- parent as completed when the call was made, up to where the generator of the parents raised; a
  -- positive answer comes with no lock and no request to consume the job, and a lock that the caller
  -- has to release comes with that request.
  pub ensure_parents_verdict :
      (app job : Text) (s : State) (v : Verdict Lock)
      → (ensure_parents_completed b g queue_children app job s).0 ≡ ok v
      → IsSound v × (v.parents_completed ≡ all_completed (g.get_parents app job) s)
  unfolding ensure_parents_completed
  ensure_parents_verdict app job s v e =
      let start : Verdict Lock = record {
        parents_completed = true;
        consume_queue = false;
        parent_lock = none;
      } in
      OnOk-at (IsVerdict start (all_completed (g.get_parents app job) s)) e
        (check_parents_lem (g.get_parents app job) start s (ground arith))

  check_parents_done :
      (items : Generated (Text × Text)) (v : Verdict Lock) (s : State)
      → is_ok (list_of items) ≡ true
      → all_completed items s ≡ true
      → check_parents b g queue_children items v s ≡ (ok v, s)
  unfolding check_parents all_completed list_of
  check_parents_done stops v s finite all = refl
  check_parents_done (fails e) v s finite all = cc
  check_parents_done (yields (app, job) rest) v s finite all =
      let next : Progress Lock → Action State (Verdict Lock) =
        after_round b g queue_children (check_parents b g queue_children rest) in
      bind_ok (check_parent b g queue_children app job v) next
        (check_parent_done app job v s (ground arith))
      ∙ check_parents_done rest v s (ground arith) (ground arith)

  -- Where every parent is completed, and naming the parents does not raise, the call returns the
  -- positive answer and changes nothing.
  pub ensure_parents_done :
      (app job : Text) (s : State)
      → is_ok (list_of (g.get_parents app job)) ≡ true
      → all_completed (g.get_parents app job) s ≡ true
      → ensure_parents_completed b g queue_children app job s
        ≡ (ok (record { parents_completed = true; consume_queue = false; parent_lock = none }), s)
  unfolding ensure_parents_completed
  ensure_parents_done app job s finite all =
      check_parents_done (g.get_parents app job)
        (record { parents_completed = true; consume_queue = false; parent_lock = none }) s finite
        all
