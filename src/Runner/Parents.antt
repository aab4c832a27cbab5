-- ===== src/Runner/Parents.antt =====
-- `parents_completed` of stolos/runner.py asserts that no parent's lock comes with a positive
-- answer; `ensure_parents_completed` keeps to that.
use stolos.Prelude.{
  ℕ, ◌≡◌, refl, Bool, true, false, Bool-cases, inl, inr, Option, Text, if◌then◌else◌,
}
use stolos.Jobs.Actions.{Action, pure, ◌>>=◌, ◌>>◌, bind_agrees_on}
use stolos.Jobs.Backend.{release_lock}
use stolos.Jobs.Queues.{Queues}
use stolos.Jobs.Graph.{Graph}
use stolos.Jobs.Parents.{Verdict, ensure_parents_completed}
use stolos.Jobs.Parents.Soundness.{IsSound, ensure_parents_verdict}
use stolos.Runner.{Options, children, leave_queue, after_parents, parents_completed}

module _ (q : Queues) (g : Graph) (depth : ℕ) (ns : Options)
    (job_type_func : Option Text → Action q.State Unit) where
  open q use {State, Lock, backend}

  -- The code without its assertion.
  abbrev pub unasserted : (job_id : Text) → Lock → Verdict Lock → Action State Bool
  unasserted job_id lock v = if v.parents_completed then pure true else (do
    leave_queue q g depth ns job_type_func job_id v
    release_lock backend lock
    pure false)

  after_parents_lem :
      (job_id : Text) (lock : Lock) (v : Verdict Lock) (s : State)
      → IsSound v
      → after_parents q g depth ns job_type_func job_id lock v s ≡ unasserted job_id lock v s
  after_parents_lem job_id lock v s sound = elim (Bool-cases v.parents_completed) [
    | inl done ↦ rw (done, (sound.0 done).1) refl
    | inr waits ↦ rw waits refl
  ]

  -- The assertion of `parents_completed` never fails: the code does what it does without it.
  parents_completed_asserts :
      (job_id : Text) (lock : Lock) (s : State)
      → parents_completed q g depth ns job_type_func job_id lock s
        ≡ (ensure_parents_completed backend g
                (children q g depth ns job_type_func)
                ns.app_name
                job_id
              >>= unasserted job_id lock)
            s
  unfolding parents_completed
  parents_completed_asserts job_id lock s =
      let c = children q g depth ns job_type_func in
      let m = ensure_parents_completed backend g c ns.app_name job_id in
      bind_agrees_on m (after_parents q g depth ns job_type_func job_id lock)
        (unasserted job_id lock) s
        (λ v e.
          after_parents_lem job_id lock v (m s).1
            (ensure_parents_verdict backend g c ns.app_name job_id s v e).0)
