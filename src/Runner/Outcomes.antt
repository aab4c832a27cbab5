-- ===== src/Runner/Outcomes.antt =====
-- How a run of `main` of stolos/runner.py ends, from the queue to the application and back.
use stolos.Prelude.{
  ℕ, ◌≡◌, refl, ◌∙◌, ap, true, false, Option, none, some, ◌∷◌, arith, Text, Dict, mem_text,
  text_eq_self, text_eq_iff,
}
use stolos.Jobs.Actions.{Action, ok, bind_ok, then_ok, ◌>>◌}
use stolos.Jobs.Backend.{exists, release_lock}
use stolos.Jobs.Paths.{
  execute, get_job_path, get_lock_path, pending_state, completed_state, lock_path_apart,
  starts_with-lock_path,
}
use stolos.Jobs.States.{check_state, validate_states, validate_state}
use stolos.Jobs.Locking.{obtain_lock}
use stolos.Jobs.Generators.{list_of}
use stolos.Jobs.Adding.{set_state, as_completed}
use stolos.Jobs.Adding.Stored.{set_state_lem}
use stolos.Jobs.Queues.{Queues}
use stolos.Jobs.Graph.{Graph}
use stolos.Jobs.Parents.{ensure_parents_completed}
use stolos.Jobs.Parents.Soundness.{is_ok, all_completed, ensure_parents_done}
use stolos.Runner.{
  Options, given, children, consume, after_parents, parents_completed, run_job, if_ready, after_job,
  handle_success, get_lock_if_job_is_runnable, run_queued, validate_job_id, run_next, main,
}

module _ (q : Queues) (g : Graph) (depth : ℕ) (ns : Options)
    (job_type_func : Option Text → Action q.State Unit) where
  open q use {
    State, Lock, backend, node, locked, holds, acquire, release, write, lock_path, get_job,
    node-write, holds-write, node-consume, holds-consume, release_held, node-release,
    locked-release, node-get_job,
  }

  -- With `bypass_scheduler` and a job id, the run is the application's own: nothing is fetched,
  -- locked or stored.
  pub main_bypass :
      (job : Text) (s : State)
      → ns.bypass_scheduler ≡ true
      → given ns.job_id ≡ some job
      → mem_text ns.app_name g.get_task_names ≡ true
      → main q g depth ns job_type_func s ≡ job_type_func ns.job_id s
  unfolding main
  main_bypass job s bypass at listed = rw (listed, bypass, at) refl

-- A scheduled run without a job id.
abbrev pub scheduled : (app_name : Text) → (max_retry : ℕ) → Options
scheduled app_name max_retry = record {
  app_name = app_name;
  job_id = none;
  bypass_scheduler = false;
  max_retry = max_retry;
}

module _ (q : Queues) (g : Graph) (depth : ℕ) (app_name : Text) (max_retry : ℕ)
    (job_type_func : Option Text → Action q.State Unit) (job : Text) (entry : Text × Text)
    (parts : Dict Text) where
  open q use {
    State, Lock, backend, node, locked, holds, item, acquire, release, write, lock_path, get_job,
    node-write, holds-write, node-consume, holds-consume, release_held, node-release,
    locked-release, node-get_job, node-acquire, locked-acquire, acquire_taken, item-acquire,
    item-get_job,
  }

  abbrev pub ns : Options
  ns = scheduled app_name max_retry

  abbrev pub queue_children : (app_name job_id : Text) → Action State Unit
  queue_children = children q g depth ns job_type_func

  abbrev pub path : Text
  path = get_job_path app_name job

  abbrev pub lock_at : Text
  lock_at = get_lock_path execute app_name job

  -- A job that is ready: the queue gives it to the run, its id has parts
  -- and its state is pending, its execute lock is taken, and its parents are completed.
  pub record IsReady (l : Lock) (s s₂ : State) : Type 0 where
    pub listed : mem_text app_name g.get_task_names ≡ true
    pub queued : (get_job app_name s).0 ≡ some job
    pub parsed : g.dag.parse_job_id app_name job ≡ ok (entry ∷ parts)
    pub pending : node s path ≡ some pending_state
    pub taken : acquire lock_at (get_job app_name s).1 ≡ (some l, s₂)
    pub parents_named : is_ok (list_of (g.get_parents app_name job)) ≡ true
    pub parents_done : all_completed backend g queue_children (g.get_parents app_name job) s₂ ≡ true

  module _ (l : Lock) (s s₂ : State) (ready : IsReady l s s₂) where
    abbrev s₁ : State
    s₁ = (get_job app_name s).1

    lock_lem : get_lock_if_job_is_runnable q g depth ns job_type_func job s₁ ≡ (ok (some l), s₂)
    unfolding get_lock_if_job_is_runnable check_state validate_states obtain_lock exists
    lock_lem = ground (
      arith,
      ready.pending,
      ready.taken,
      node-get_job app_name s app_name job,
      starts_with-lock_path execute app_name job,
    )

    parents_lem : parents_completed q g depth ns job_type_func job l s₂ ≡ (ok true, s₂)
    unfolding parents_completed
    parents_lem =
        bind_ok (ensure_parents_completed backend g queue_children app_name job)
          (after_parents q g depth ns job_type_func job l)
          (ensure_parents_done backend g queue_children app_name job s₂ ready.parents_named
            ready.parents_done)

    -- The run of a ready job comes to its application, under the execute lock.
    pub main-reaches :
        main q g depth ns job_type_func s ≡ run_job q g depth ns job_type_func job l s₂
    unfolding main run_next validate_job_id run_queued
    main-reaches =
        rw (ready.listed, ready.queued, ready.parsed, lock_lem)
          (bind_ok (parents_completed q g depth ns job_type_func job l)
            (if_ready q g depth ns job_type_func job l) parents_lem)

    module _ (s₃ : State) (l_at : lock_path l ≡ lock_at) where
      run_lem :
          (s₄ : State)
          → job_type_func (some job) s₂ ≡ (ok tt, s₃)
          → queue_children app_name job s₃ ≡ (ok tt, s₄)
          → let s₅ = write path completed_state s₄ in
            (q.consume app_name s₅).0 ≡ ok tt
            → run_job q g depth ns job_type_func job l s₂
              ≡ release_lock backend l (q.consume app_name s₅).1
      unfolding run_job handle_success validate_state
      run_lem s₄ ran queued consumed =
          let s₅ = write path completed_state s₄ in
          let finish : Action State Unit = consume q g depth ns job_type_func in
          let free : Action State Unit = release_lock backend l in
          let mark : Action State Unit =
            set_state backend g.dag queue_children app_name job as_completed in
          ap (λ x. after_job q g depth ns job_type_func job l x.0 x.1) ran
          ∙ then_ok mark (finish >> free) (
              set_state_lem backend g.dag queue_children app_name job entry parts ready.parsed
                as_completed completed_state s₃ s₄ refl queued)
          ∙ then_ok finish free {s = s₅} (ap (λ r. (r, (q.consume app_name s₅).1)) consumed)

      release_lem :
          (s₄ : State)
          → holds l s₄ ≡ true
          → let s₆ = (q.consume app_name (write path completed_state s₄)).1 in
            let (r, s') = release_lock backend l s₆ in
            (r ≡ ok tt)
            × (node s' path ≡ some completed_state)
            × (locked s' lock_at ≡ false)
            × (s' ≡ (release l s₆).1)
      unfolding release_lock
      release_lem s₄ held =
          let s₅ = write path completed_state s₄ in
          let s₆ = (q.consume app_name s₅).1 in
          let apart = lock_path_apart execute app_name job in
          ground (
            arith,
            l_at,
            held,
            apart,
            text_eq_iff path lock_at,
            text_eq_iff lock_at path,
            holds-write path completed_state s₄ l,
            holds-consume app_name s₅ l execute app_name job l_at,
            node-consume app_name s₅ app_name job,
            node-write path completed_state s₄ path,
            text_eq_self path,
            text_eq_self lock_at,
            release_held l s₆,
            node-release l s₆ path,
            locked-release l s₆ lock_at,
          )

      -- The application of a ready job returns in the state `s₃`, the children can be queued from
      -- there, and `q.consume()` returns; the execute lock is held until then. The run stores the job
      -- as completed, consumes it, and frees its execute lock.
      pub main_completes :
          (s₄ : State)
          → job_type_func (some job) s₂ ≡ (ok tt, s₃)
          → queue_children app_name job s₃ ≡ (ok tt, s₄)
          → let s₅ = write path completed_state s₄ in
            let s₆ = (q.consume app_name s₅).1 in
            (q.consume app_name s₅).0 ≡ ok tt
            → holds l s₄ ≡ true
            → let (r, s') = main q g depth ns job_type_func s in
              (r ≡ ok tt)
              × (s' ≡ (release l s₆).1)
              × (node s' path ≡ some completed_state)
              × (locked s' lock_at ≡ false)
      main_completes s₄ ran queued consumed held =
          let s₅ = write path completed_state s₄ in
          let s₆ = (q.consume app_name s₅).1 in
          let released = release_lem s₄ held in
          let reached = main-reaches ∙ run_lem s₄ ran queued consumed in
          (
            ap (λ x. x.0) reached ∙ released.0,
            ap (λ x. x.1) reached ∙ released.3,
            ap (λ x. node x.1 path) reached ∙ released.1,
            ap (λ x. locked x.1 lock_at) reached ∙ released.2,
          )
