-- ===== src/Plugins/Bash/Examples.antt =====
-- A process with one child that runs too long, and a job of an app without a command.

use stolos.Prelude.{
  ℕ, ◌≡◌, refl, inl, Bool, true, false, Option, none, some, List, [], ◌∷◌, arith, Text, txt,
  if◌then◌else◌, ◌==◌, ◌||◌,
}
use stolos.Jobs.Actions.{Action, ok, pure}
use stolos.Jobs.Backend.Memory.{Tables, memory, no_jobs}
use stolos.Jobs.Paths.{execute, join, get_job_path, get_lock_path, pending_state, completed_state}
use stolos.Jobs.Generators.{list_of}
use stolos.Jobs.Queues.Memory.{worker}
use stolos.Jobs.Graph.Samples.{graph}
use stolos.Jobs.Parents.Soundness.{all_completed}
use stolos.Runner.{get_lock_if_job_is_runnable, main}
use stolos.Runner.Outcomes.{scheduled, IsReady}
use stolos.Configuration.{Fields, end, field, scalar}
use stolos.Plugins.Bash.{
  Ended, exited, signalled, Machine, Options, Setting, AreDead, run, run_kills,
}
use stolos.Plugins.Bash.Runs.{command_missing}
use stolos.Plugins.Bash

-- Which processes run: 7 is started with its child 8, and does not end by itself.
abbrev Running : Type 0
Running = ℕ → Bool

abbrev kill : ℕ → Running → Bool × Running
kill pid s = (s pid, λ j. if pid == j then false else s j)

kill-dead : (pid : ℕ) (s : Running) → (kill pid s).0 ≡ true → (kill pid s).1 pid ≡ false
kill-dead pid s killed = ground arith

kill-still : (pid : ℕ) (s : Running) (j : ℕ) → s j ≡ false → (kill pid s).1 j ≡ false
kill-still pid s j dead = ground arith

abbrev machine : Machine Running
machine = record {
  start = λ cmd s. (7, λ j. j == 7 || j == 8 || s j);
  communicate = λ pid s. (exited 0, s);
  communicate_within = λ seconds pid s. (none, s);
  ps = λ pid s. (8 ∷ [], s);
  kill = kill;
  is_running = λ s j. s j;
  is_running-kill = kill-dead;
  kill-is_running = kill-still;
}

abbrev no_process : Running
no_process j = false

run_kills_example :
    let (ended, s') = run machine (txt "sleep 60") (some 5) no_process in
    (ended ≡ signalled 9) × AreDead machine s' (7 ∷ 8 ∷ [])
run_kills_example =
    run_kills machine (txt "sleep 60") 5 no_process refl (λ s runs. runs, (λ s runs. runs, tt))

-- A machine on which every process ends at once, beside the tables of the backend.
abbrev quick : Machine Tables
quick = record {
  start = λ cmd s. (7, s);
  communicate = λ pid s. (exited 0, s);
  communicate_within = λ seconds pid s. (some (exited 0), s);
  ps = λ pid s. ([], s);
  kill = λ pid s. (false, s);
  is_running = λ s j. false;
  is_running-kill = λ pid s _. refl;
  kill-is_running = λ pid s j dead. refl;
}

abbrev app : Text
app = txt "b"

abbrev job : Text
job = txt "1"

-- The app has no `bash_cmd`.
abbrev setting : Setting Text Unit
setting = record {
  tasks = λ name. some (field (txt "job_type") (scalar (txt "bash")) end);
  as_text = λ v. some v;
  parse_job_id = λ name id. ok tt;
  format = λ cmd parts. ok cmd;
}

abbrev options : Option (List Text) → Options
options words = record { app_name = app; bash_cmd = words; watch = none }

abbrev unconfigured : Option Text → Action Tables Unit
unfolding Bash.main
unconfigured none = pure tt
unconfigured (some id) = Bash.main setting quick (options none) id

abbrev lock_at : Text
lock_at = get_lock_path execute app job

-- The job's parent is completed, and the job is queued.
abbrev waiting : Tables
waiting = memory.put app job none (
    memory.write (get_job_path app job) pending_state
      (memory.write (get_job_path (txt "a") job) completed_state no_jobs))

abbrev taken : Tables
taken = (memory.acquire lock_at (worker.get_job app waiting).1).1

unconfigured-IsReady :
    IsReady worker graph 9 app 5 unconfigured job (txt "date", job) [] lock_at waiting taken
unfolding list_of all_completed get_lock_path get_job_path join
unconfigured-IsReady = record {
  listed = refl;
  queued = refl;
  parsed = refl;
  pending = refl;
  taken = refl;
  parents_named = refl;
  parents_done = refl;
}

abbrev meta : Fields Text
meta = field (txt "job_type") (scalar (txt "bash")) end

command_missing_example :
    let (r, s') = main worker graph 9 (scheduled app 5) unconfigured waiting in
    (r ≡ ok tt)
    × (s' ≡ taken)
    × (s'.item ≡ some job)
    × (memory.node s' (get_job_path app job) ≡ some pending_state)
    × (memory.locked s' lock_at ≡ true)
    × (get_lock_if_job_is_runnable worker graph 9 (scheduled app 5) unconfigured job s'
        ≡ (ok none, s'))
unfolding unconfigured
command_missing_example =
    command_missing worker graph 9 app 5 unconfigured job (txt "date", job) [] lock_at waiting taken
      unconfigured-IsReady setting quick (options none) meta refl refl refl (inl refl)
