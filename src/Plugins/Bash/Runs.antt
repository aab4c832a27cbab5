-- ===== src/Plugins/Bash/Runs.antt =====
-- A run of stolos/runner.py whose application is a bash job.
use stolos.Prelude.{
  ℕ, ◌≡◌, ◌∙◌, refl, ap, ◌⊎◌, inl, inr, true, Option, none, some, [], Text, Dict, txt,
}
use stolos.Jobs.Actions.{Action, ok, raised, user_warning}
use stolos.Jobs.Queues.{Queues}
use stolos.Jobs.Graph.{Graph}
use stolos.Jobs.Paths.{execute, get_job_path, get_lock_path, pending_state}
use stolos.Runner.{get_lock_if_job_is_runnable, main}
use stolos.Runner.Outcomes.{scheduled, IsReady}
use stolos.Runner.Crashes.{main_crashes}
use stolos.Configuration.{Fields}
use stolos.Plugins.Bash.{
  Machine, Options, Setting, command, run_line, value_at, get_bash_cmd, fill_in,
}
use stolos.Plugins.Bash

module _ {S Parts State : Type 0} (setting : Setting S Parts) (m : Machine State) (ns : Options)
    (meta : Fields S) (configured : setting.tasks ns.app_name ≡ some meta)
    (missing : value_at setting m ns (txt "bash_cmd") meta ≡ none)
    (unsaid : (ns.bash_cmd ≡ none) ⊎ (ns.bash_cmd ≡ some [])) where
  -- With no command configured and no words given there is nothing to run.
  command-missing : (job : Text) → command setting m ns job ≡ raised user_warning
  unfolding command get_bash_cmd fill_in
  command-missing job = elim unsaid [
    | inl none_given ↦ rw (configured, missing, none_given) refl
    | inr empty ↦ rw (configured, missing, empty) refl
  ]

module _ (q : Queues) (g : Graph) (depth : ℕ) (app_name : Text) (max_retry : ℕ)
    (job_type_func : Option Text → Action q.State Unit) (job : Text) (entry : Text × Text)
    (parts : Dict Text) (l : q.Lock) (s s₂ : q.State)
    (ready : IsReady q g depth app_name max_retry job_type_func job entry parts l s s₂) where
  open q use {item, node, locked}

  -- A ready job of an app whose configuration has no `bash_cmd`, on a run without bash options, whose
  -- application is the bash plugin: nothing is started and nothing of the backend is changed after the
  -- execute lock was taken. The run returns, the queue object holds the job, which is pending, and
  -- the execute lock stays taken; a run that comes to the job from there does not obtain it.
  pub command_missing :
      {S Parts : Type 0} (setting : Setting S Parts) (m : Machine q.State) (ns : Options)
      (meta : Fields S)
      → job_type_func (some job) ≡ Bash.main setting m ns job
      → setting.tasks ns.app_name ≡ some meta
      → value_at setting m ns (txt "bash_cmd") meta ≡ none
      → (ns.bash_cmd ≡ none) ⊎ (ns.bash_cmd ≡ some [])
      → let (r, s') = main q g depth (scheduled app_name max_retry) job_type_func s in
        (r ≡ ok tt)
        × (s' ≡ s₂)
        × (item s' ≡ some job)
        × (node s' (get_job_path app_name job) ≡ some pending_state)
        × (locked s' (get_lock_path execute app_name job) ≡ true)
        × (get_lock_if_job_is_runnable q g depth (scheduled app_name max_retry) job_type_func job s'
            ≡ (ok none, s'))
  unfolding Bash.main run_line
  command_missing setting m ns meta is_bash configured missing unsaid =
      let raises = command-missing setting m ns meta configured missing unsaid job in
      main_crashes q g depth app_name max_retry job_type_func job entry parts l s s₂ ready s₂
        user_warning (ap (λ f. f s₂) is_bash ∙ ap (λ r. run_line setting m ns r s₂) raises) (cc)
        refl refl refl
