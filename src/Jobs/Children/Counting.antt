-- ===== src/Jobs/Children/Counting.antt =====
-- When `_maybe_queue_children` of stolos/queue_backend/modify_job_state.py queues a child: with the
-- last of its parents.
use stolos.Prelude.{
  ℕ, zero, suc, ◌+◌, ◌<◌, ◌≡◌, refl, ◌∙◌, ap, Bool, false, true, Bool-cases, inl, inr, List, [],
  ◌∷◌, ◌++◌, some, arith, Text, Dict, txt, text_eq, text_eq_self, leb, length, if◌then◌else◌,
}
use stolos.Jobs.Actions.{ok, pure, then_ok}
use stolos.Jobs.Paths.{
  add, get_job_path, get_lock_path, pending_state, skipped_state, join_names_apart,
}
use stolos.Jobs.Generators.{list_of}
use stolos.Jobs.Queues.{Queues}
use stolos.Jobs.Graph.{Graph}
use stolos.Jobs.Readding.{readd_subtask}
use stolos.Jobs.Readding.Outcomes.{readd_once}
use stolos.Jobs.Children.{path_num_complete_parents, no_children, readd, queue_child}

module _ (q : Queues) (g : Graph) (depth : ℕ) (app job : Text) where
  open q use {
    State, node, locked, jobs, acquire, is_queued, counter, increment, increment-reply,
    counter-increment, jobs-increment, locked-increment,
  }

  abbrev pub counter_path : Text
  counter_path = path_num_complete_parents app job

  abbrev pub lock_at : Text
  lock_at = get_lock_path add app job

  counter_lock_apart : text_eq counter_path lock_at ≡ false
  unfolding path_num_complete_parents get_lock_path
  counter_lock_apart =
      join_names_apart (get_job_path app job) (txt "num_complete_parents") (txt "add_lock") refl
        refl refl

  -- The state in which the last parent asks whether the child is queued: it has counted itself, and
  -- has taken the add lock.
  abbrev pub asked_in : State → State
  asked_in before = (acquire lock_at (increment counter_path before).1).1

  -- The state after so many of the parents have run `queue_child`.
  unfoldable pub after_parents : ℕ → State → State
  after_parents zero s = s
  after_parents (suc n) s = (queue_child q g depth (app, job) (after_parents n s)).1

  module _ (entry : Text × Text) (parts : Dict Text)
      (parsed : g.dag.parse_job_id app job ≡ ok (entry ∷ parts)) (parents : List (Text × Text))
      (named : list_of (g.get_parents app job) ≡ ok parents) where
    queue_child_lem :
        (s : State)
        → queue_child q g depth (app, job) s ≡ (
            let s' = (increment counter_path s).1 in
            if leb (length parents) (counter s counter_path + 1)
            then readd q g depth app job s'
            else (ok tt, s'))
    unfolding queue_child
    queue_child_lem s =
        let s' = (increment counter_path s).1 in
        rw (named, increment-reply counter_path s)
          (elim (Bool-cases (leb (length parents) (counter s counter_path + 1))) [
            | inl last ↦ rw last refl
            | inr more ↦ rw more refl
          ])

    after_parents_lem :
        (n : ℕ) (s : State)
        → counter s counter_path ≡ 0
        → n < length parents
        → (counter (after_parents n s) counter_path ≡ n)
          × ((a : Text) → jobs (after_parents n s) a ≡ jobs s a)
          × (locked (after_parents n s) lock_at ≡ locked s lock_at)
    unfolding after_parents
    after_parents_lem zero s fresh below = (fresh, λ a. refl, refl)
    after_parents_lem (suc n) s fresh below =
        let h = after_parents_lem n s fresh (omega arith) in
        let before = after_parents n s in
        let counted = (increment counter_path before).1 in
        let waits : queue_child q g depth (app, job) before ≡ (ok tt, counted) =
          queue_child_lem before ∙ ground (arith, h.0) in
        (
          ap (λ r. counter r.1 counter_path) waits
              ∙ ground (
                arith,
                counter-increment counter_path before counter_path,
                text_eq_self counter_path,
                h.0,
              ),
          λ a. ap (λ r. jobs r.1 a) waits ∙ jobs-increment counter_path before a ∙ h.1 a,
          ap (λ r. locked r.1 lock_at) waits
              ∙ locked-increment counter_path before lock_at counter_lock_apart
              ∙ h.2,
        )

    queue_child-last :
        (n : ℕ) (s : State)
        → counter s counter_path ≡ n
        → length parents ≡ n + 1
        → queue_child q g depth (app, job) s ≡ readd q g depth app job (increment counter_path s).1
    queue_child-last n s count last = queue_child_lem s ∙ ground (arith, count, last)

    -- A child whose id has parts, with n + 1 parents, a count that starts at 0 and an add lock that is
    -- free; once n of the parents have run `queue_child`, no queue has changed. Where the child is then
    -- not queued, and its filter returns, the call of the last parent returns: the child is pending,
    -- and was added once to its queue, or it is skipped, where the filter rejects it; its add lock is
    -- free again.
    pub last_parent_queues :
        (n : ℕ) (passes : Bool) (s : State)
        → counter s counter_path ≡ 0
        → length parents ≡ n + 1
        → locked s lock_at ≡ false
        → is_queued app job (asked_in (after_parents n s)) ≡ false
        → g.dag.passes_filter app job ≡ ok passes
        → let before = after_parents n s in
          let (r, s') = queue_child q g depth (app, job) before in
          ((a : Text) → jobs before a ≡ jobs s a)
          × (r ≡ ok tt)
          × (node s' (get_job_path app job)
              ≡ some (if passes then pending_state else skipped_state))
          × (jobs s' app ≡ (if passes then jobs s app ++ job ∷ [] else jobs s app))
          × (locked s' lock_at ≡ false)
    last_parent_queues n passes s fresh all free out filtered =
        let before = after_parents n s in
        let counted = (increment counter_path before).1 in
        let (count, queues, locks) = after_parents_lem n s fresh (omega arith) in
        let unlocked =
          locked-increment counter_path before lock_at counter_lock_apart ∙ locks ∙ free in
        let h =
          readd_once q g (no_children q g depth) depth app job entry parts parsed counted unlocked
            passes out filtered in
        let run = queue_child-last n before count all in
        let readds = readd_subtask q g (no_children q g depth) depth app job false false true in
        let done : readd q g depth app job counted ≡ (ok tt, (readds counted).1) =
          then_ok readds (pure tt) (ap (λ r. (r, (readds counted).1)) h.0) in
        let whole = run ∙ done in
        (
          queues,
          ap (λ r. r.0) whole,
          ap (λ r. node r.1 (get_job_path app job)) whole ∙ h.1,
          ap (λ r. jobs r.1 app) whole
              ∙ h.2
              ∙ ap (λ x. if passes then x ++ job ∷ [] else x)
                  (jobs-increment counter_path before app ∙ queues app),
          ap (λ r. locked r.1 lock_at) whole ∙ h.3,
        )
