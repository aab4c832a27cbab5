-- ===== src/Runner/Crashes.antt =====
-- What a run of stolos/runner.py leaves behind where its application raises.
use stolos.Prelude.{
  ℕ, ◌≡◌, sym, ◌≢◌, ◌∙◌, ap, true, Option, none, some, arith, Text, Dict, text_eq_self,
}
use stolos.Jobs.Actions.{Action, Exception, ok, raised, code_error}
use stolos.Jobs.Backend.{exists}
use stolos.Jobs.Paths.{
  execute, get_job_path, get_lock_path, pending_state, lock_path_apart, starts_with-lock_path,
}
use stolos.Jobs.States.{check_state, validate_states}
use stolos.Jobs.Locking.{obtain_lock}
use stolos.Jobs.Queues.{Queues}
use stolos.Jobs.Graph.{Graph}
use stolos.Runner.Outcomes.{scheduled, IsReady, main-reaches}
use stolos.Runner.{Options, run_job, after_job, get_lock_if_job_is_runnable, main}

module _ (q : Queues) (g : Graph) (depth : ℕ) (app_name : Text) (max_retry : ℕ)
    (job_type_func : Option Text → Action q.State Unit) (job : Text) (entry : Text × Text)
    (parts : Dict Text) where
  open q use {
    State, Lock, node, locked, item, get_job, node-get_job, node-acquire, locked-acquire,
    acquire_taken, item-acquire, item-get_job,
  }

  abbrev ns : Options
  ns = scheduled app_name max_retry

  abbrev path : Text
  path = get_job_path app_name job

  abbrev lock_at : Text
  lock_at = get_lock_path execute app_name job

  module _ (l : Lock) (s s₂ : State)
      (ready : IsReady q g depth app_name max_retry job_type_func job entry parts l s s₂) where
    abbrev s₁ : State
    s₁ = (get_job app_name s).1

    crash_lem :
        (s₃ : State) (e : Exception)
        → e ≢ code_error
        → after_job q g depth ns job_type_func job l (raised e) s₃ ≡ (ok tt, s₃)
    crash_lem s₃ e other = ground arith

    crash_run :
        (s₃ : State) (e : Exception)
        → job_type_func (some job) s₂ ≡ (raised e, s₃)
        → e ≢ code_error
        → main q g depth ns job_type_func s ≡ (ok tt, s₃)
    unfolding run_job
    crash_run s₃ e ran other =
        main-reaches q g depth app_name max_retry job_type_func job entry parts l s s₂ ready
        ∙ ap (λ x. after_job q g depth ns job_type_func job l x.0 x.1) ran
        ∙ crash_lem s₃ e other

    -- What the run has done when it comes to its application: the queue object holds the job, which
    -- is pending and locked.
    pub reached_state :
        (item s₂ ≡ some job) × (node s₂ path ≡ some pending_state) × (locked s₂ lock_at ≡ true)
    reached_state =
        let here = ap (λ x. x.1) ready.taken in
        let apart = lock_path_apart execute app_name job in
        let pending = node-get_job app_name s app_name job ∙ ready.pending in
        (
          ap item (sym here) ∙ item-acquire lock_at s₁ ∙ item-get_job app_name s ∙ ready.queued,
          ap (λ x. node x path) (sym here)
              ∙ node-acquire lock_at s₁ path pending_state apart pending,
          ap (λ x. locked x lock_at) (sym here)
              ∙ locked-acquire lock_at s₁ lock_at
              ∙ ground (arith, text_eq_self lock_at),
        )

    refused_lem :
        (s₃ : State)
        → node s₃ path ≡ some pending_state
        → locked s₃ lock_at ≡ true
        → get_lock_if_job_is_runnable q g depth ns job_type_func job s₃ ≡ (ok none, s₃)
    unfolding get_lock_if_job_is_runnable check_state validate_states obtain_lock exists
    refused_lem s₃ pending locks =
        ground (
          arith,
          pending,
          acquire_taken lock_at s₃ locks,
          starts_with-lock_path execute app_name job,
        )

    -- An application of a ready job that raises an exception other than CodeError, and that leaves the
    -- job's state, its execute lock and the item of the queue object alone: the run returns and does
    -- nothing more. The queue object still holds the job, which is pending, and its execute lock stays
    -- taken; a run that comes to the job from there does not obtain the lock.
    pub main_crashes :
        (s₃ : State) (e : Exception)
        → job_type_func (some job) s₂ ≡ (raised e, s₃)
        → e ≢ code_error
        → item s₃ ≡ item s₂
        → node s₃ path ≡ node s₂ path
        → locked s₃ lock_at ≡ locked s₂ lock_at
        → let (r, s') = main q g depth ns job_type_func s in
          (r ≡ ok tt)
          × (s' ≡ s₃)
          × (item s' ≡ some job)
          × (node s' path ≡ some pending_state)
          × (locked s' lock_at ≡ true)
          × (get_lock_if_job_is_runnable q g depth ns job_type_func job s' ≡ (ok none, s'))
    main_crashes s₃ e ran other kept_item kept_node kept_lock =
        let run = crash_run s₃ e ran other in
        let end : (main q g depth ns job_type_func s).1 ≡ s₃ = ap (λ x. x.1) run in
        let reached = reached_state in
        let pending = kept_node ∙ reached.1 in
        let locks = kept_lock ∙ reached.2 in
        (
          ap (λ x. x.0) run,
          end,
          ap item end ∙ kept_item ∙ reached.0,
          ap (λ x. node x path) end ∙ pending,
          ap (λ x. locked x lock_at) end ∙ locks,
          rw end (refused_lem s₃ pending locks),
        )
