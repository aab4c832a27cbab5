-- ===== src/Runner/Rejected.antt =====
-- Jobs that `main` of stolos/runner.py takes off the queue without running them.
use stolos.Prelude.{
  ℕ, ◌≡◌, ◌∙◌, ap, Bool, true, false, Option, none, some, arith, Text, mem_text, Dict,
}
use stolos.Jobs.Actions.{Action, ok, raised, pure, then_ok, bind_ok, invalid_job_id, no_node, ◌>>◌}
use stolos.Jobs.Paths.{get_job_path, failed_state}
use stolos.Jobs.States.{check_state}
use stolos.Jobs.Adding.{as_failed, set_state_unsafe}
use stolos.Jobs.Queues.{Queues}
use stolos.Jobs.Graph.{Graph}
use stolos.Runner.{
  Options, children, consume, validate_job_id, get_lock_if_job_is_runnable, run_queued, if_runnable,
  or_nothing, run_next, main,
}
use stolos.Runner.Outcomes.{scheduled}

module _ (q : Queues) (g : Graph) (depth : ℕ) (app_name : Text) (max_retry : ℕ)
    (job_type_func : Option Text → Action q.State Unit) (job : Text) (s : q.State)
    (listed : mem_text app_name g.get_task_names ≡ true)
    (queued : (q.get_job app_name s).0 ≡ some job) where
  open q use {State, backend, node, write, get_job, node-get_job}

  abbrev pub ns : Options
  ns = scheduled app_name max_retry

  abbrev pub queue_children : (app_name job_id : Text) → Action State Unit
  queue_children = children q g depth ns job_type_func

  abbrev pub path : Text
  path = get_job_path app_name job

  abbrev pub s₁ : State
  s₁ = (get_job app_name s).1

  store_failed :
      (s' : State)
      → set_state_unsafe backend g.dag queue_children app_name job as_failed s'
        ≡ (ok tt, write path failed_state s')
  unfolding set_state_unsafe
  store_failed s' = ground arith

  -- A queued job whose id is invalid, where `q.consume()` returns: the run consumes the job, stores it
  -- as failed and returns.
  pub main_invalid :
      g.dag.parse_job_id app_name job ≡ raised invalid_job_id
      → (q.consume app_name s₁).0 ≡ ok tt
      → main q g depth ns job_type_func s
        ≡ (ok tt, write path failed_state (q.consume app_name s₁).1)
  unfolding main run_next validate_job_id
  main_invalid invalid consumed =
      let s₂ = (q.consume app_name s₁).1 in
      let finish : Action State Unit = consume q g depth ns job_type_func in
      let mark : Action State Unit =
        set_state_unsafe backend g.dag queue_children app_name job as_failed in
      let leave : Bool → Action State Unit = or_nothing q g depth ns job_type_func (some job) in
      let refused : (finish >> (mark >> pure false)) s₁ ≡ (ok false, write path failed_state s₂) =
        then_ok finish (mark >> pure false) {s = s₁} (ap (λ r. (r, s₂)) consumed)
        ∙ then_ok mark (pure false) (store_failed s₂) in
      rw (listed, queued, invalid) (bind_ok (finish >> (mark >> pure false)) leave refused)

  missing_lem :
      node s path ≡ none
      → get_lock_if_job_is_runnable q g depth ns job_type_func job s₁ ≡ (raised no_node, s₁)
  unfolding get_lock_if_job_is_runnable check_state
  missing_lem absent = ground (arith, node-get_job app_name s app_name job, absent)

  -- A queued job whose id is valid and whose state does not exist: the run does nothing but consume
  -- it, and ends as `q.consume()` does.
  main_missing :
      (parts : Dict Text)
      → g.dag.parse_job_id app_name job ≡ ok parts
      → node s path ≡ none
      → main q g depth ns job_type_func s ≡ q.consume app_name s₁
  unfolding main run_next validate_job_id run_queued
  main_missing parts parsed absent =
      rw (listed, queued, parsed)
        (ap (λ x. if_runnable q g depth ns job_type_func job x.0 x.1) (missing_lem absent))
