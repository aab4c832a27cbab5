-- ===== src/Plugins/Bash.antt =====
-- stolos/plugins/bash_plugin.py: run, get_bash_cmd and main. The configuration of the app is a mapping
-- of stolos/configuration_backend. The processes of the machine are a parameter; a number of seconds
-- to watch that is -1 or 0 is none. What is logged is left out.
pub mod Runs
mod Examples
use mathlib.Core.Logic.{◌↔◌}
use stolos.Prelude.{
  ℕ, zero, suc, ◌≡◌, ◌≢◌, refl, ◌∙◌, ap, Bool-cases, inl, inr, Bool, true, false, Option, none,
  some, List, [], ◌∷◌, ◌++◌, arith, Text, txt, text_eq, join_by, if◌then◌else◌, ◌==◌,
}
use stolos.Jobs.Actions.{
  Result, ok, raised, Action, pure, lift, and_then, ◌>>=◌, code_error, user_warning, key_error,
}
use stolos.Configuration.{Data, scalar, Fields, end, field}

-- How a process ended: with an exit code, or by a signal, which is a return code below 0.
pub data Ended : Type 0 where
  exited : (code : ℕ) → Ended
  signalled : (signal : ℕ) → Ended

-- What subprocess, ps and kill do to the machine.
pub record Machine (State : Type 0) : Type 0 where
  -- `Popen` with a shell, `communicate()`, and `communicate()` with an alarm, none where it rings
  pub start : Text → State → ℕ × State
  pub communicate : ℕ → State → Ended × State
  pub communicate_within : (seconds pid : ℕ) → State → Option Ended × State
  -- the processes that ps lists as children
  pub ps : ℕ → State → List ℕ × State
  -- SIGKILL; false for OSError, where there is no such process or it may not be killed
  pub kill : ℕ → State → Bool × State
  pub is_running : State → ℕ → Bool
  pub is_running-kill :
      (pid : ℕ) (s : State) → (kill pid s).0 ≡ true → is_running (kill pid s).1 pid ≡ false
  -- Killing a process starts none.
  pub kill-is_running :
      (pid : ℕ) (s : State) (j : ℕ) → is_running s j ≡ false → is_running (kill pid s).1 j ≡ false

module _ {State : Type 0} (m : Machine State) where
  open m use {
    start, communicate, communicate_within, ps, kill, is_running, is_running-kill, kill-is_running,
  }

  -- Whether a process could be killed does not matter.
  unfoldable pub kill_each : List ℕ → State → State
  kill_each [] s = s
  kill_each (pid ∷ pids) s = kill_each pids (kill pid s).1

  abbrev pub or_kill : ℕ → Option Ended × State → Ended × State
  unfolding kill_each
  or_kill pid (some ended, s) = (ended, s)
  or_kill pid (none, s) =
      let (children, s') = ps pid s in (signalled 9, kill_each (pid ∷ children) s')

  abbrev pub watched : ℕ → Option ℕ → State → Ended × State
  watched pid none s = communicate pid s
  watched pid (some seconds) s = or_kill pid (communicate_within seconds pid s)

  unfoldable pub run : Text → (timeout : Option ℕ) → State → Ended × State
  run cmd timeout s = let (pid, s') = start cmd s in watched pid timeout s'

  kill_each_dead :
      (pids : List ℕ) (s : State) (j : ℕ)
      → is_running s j ≡ false
      → is_running (kill_each pids s) j ≡ false
  unfolding kill_each
  kill_each_dead [] s j dead = dead
  kill_each_dead (pid ∷ pids) s j dead =
      kill_each_dead pids (kill pid s).1 j (kill-is_running pid s j dead)

  abbrev pub AreDead : State → List ℕ → Type 0
  AreDead s [] = Unit
  AreDead s (pid ∷ pids) = (is_running s pid ≡ false) × AreDead s pids

  -- `kill` raises OSError for one of these processes only if it does not run.
  abbrev pub AreKillable : List ℕ → Type 0
  AreKillable [] = Unit
  AreKillable (pid ∷ pids) =
      ((s : State) → is_running s pid ≡ true → (kill pid s).0 ≡ true) × AreKillable pids

  kill-dead :
      (pid : ℕ) (s : State)
      → ((t : State) → is_running t pid ≡ true → (kill pid t).0 ≡ true)
      → is_running (kill pid s).1 pid ≡ false
  kill-dead pid s killable = elim (Bool-cases (is_running s pid)) [
    | inl runs ↦ is_running-kill pid s (killable s runs)
    | inr ended ↦ kill-is_running pid s pid ended
  ]

  kill_each-AreDead :
      (pids : List ℕ) (s : State) → AreKillable pids → AreDead (kill_each pids s) pids
  unfolding kill_each
  kill_each-AreDead [] s killable = tt
  kill_each-AreDead (pid ∷ pids) s killable = (
    kill_each_dead pids (kill pid s).1 pid (kill-dead pid s killable.0),
    kill_each-AreDead pids (kill pid s).1 killable.1,
  )

  or_kill-none :
      (pid : ℕ) (x : Option Ended × State)
      → AreKillable (pid ∷ (ps pid x.1).0)
      → x.0 ≡ none
      → ((or_kill pid x).0 ≡ signalled 9) × AreDead (or_kill pid x).1 (pid ∷ (ps pid x.1).0)
  unfolding or_kill
  or_kill-none pid (none, s) killable e =
      (refl, kill_each-AreDead (pid ∷ (ps pid s).0) (ps pid s).1 killable)
  or_kill-none pid (some ended, s) killable e = cc

  -- Where the alarm rings before the process ends, and `kill` raises OSError for the process and the
  -- children that ps then lists only where they do not run: `run` reports signal 9, and neither the
  -- process nor one of these children runs any more.
  pub run_kills :
      (cmd : Text) (seconds : ℕ) (s : State)
      → let (pid, s₁) = start cmd s in
        let (reply, s₂) = communicate_within seconds pid s₁ in
        reply ≡ none
        → AreKillable (pid ∷ (ps pid s₂).0)
        → let (ended, s') = run cmd (some seconds) s in
          (ended ≡ signalled 9) × AreDead s' (pid ∷ (ps pid s₂).0)
  unfolding run
  run_kills cmd seconds s rang killable =
      or_kill-none (start cmd s).0 (communicate_within seconds (start cmd s).0 (start cmd s).1)
        killable rang

-- The options of the plugin; `bash_cmd` is None or a list of words.
pub record Options : Type 0 where
  pub app_name : Text
  pub bash_cmd : Option (List Text)
  pub watch : Option ℕ

-- What the plugin asks of the rest: the configuration, its scalars that are texts, `parse_job_id`, and
-- `format` of a text with the options and the parts of the job id.
pub record Setting (S Parts : Type 0) : Type 0 where
  pub tasks : Text → Option (Fields S)
  pub as_text : S → Option Text
  pub parse_job_id : (app_name job_id : Text) → Result Parts
  pub format : Text → Parts → Result Text

module _ {S Parts State : Type 0} (g : Setting S Parts) (m : Machine State) (ns : Options) where
  open g use {tasks, as_text, parse_job_id, format}

  -- `meta.get(key)`
  abbrev pub value_at : Text → Fields S → Option (Data S)
  value_at k end = none
  value_at k (field j v fs) = if text_eq k j then some v else value_at k fs

  abbrev pub or_misconfigured : Option Text → Result Text
  or_misconfigured none = raised code_error
  or_misconfigured (some cmd) = ok cmd

  abbrev pub text_of : Option (Data S) → Result Text
  text_of none = ok []
  text_of (some (scalar v)) = or_misconfigured (as_text v)
  text_of (some _) = raised code_error

  -- An app that is not a bash job is logged, and that is all.
  unfoldable pub get_bash_cmd : Option (Fields S) → Result Text
  get_bash_cmd none = raised key_error
  get_bash_cmd (some meta) = text_of (value_at (txt "bash_cmd") meta)

  -- `if ns.bash_cmd: cmd += ' '.join(ns.bash_cmd)`
  abbrev pub with_words : Option (List Text) → Text → Text
  with_words none cmd = cmd
  with_words (some words) cmd = cmd ++ join_by (txt " ") words

  -- The command that is run: filled in, where there is one.
  unfoldable pub fill_in : (job_id cmd : Text) → Result Text
  fill_in job_id [] = raised user_warning
  fill_in job_id (c ∷ cmd) = and_then (parse_job_id ns.app_name job_id) (format (c ∷ cmd))

  unfoldable pub command : (job_id : Text) → Result Text
  unfolding get_bash_cmd fill_in
  command job_id =
      and_then (get_bash_cmd (tasks ns.app_name)) λ cmd. fill_in job_id (with_words ns.bash_cmd cmd)

  abbrev pub check_code : Ended → Result Unit
  check_code (exited code) = if code == 0 then ok tt else raised code_error
  check_code (signalled signal) = raised code_error

  abbrev pub run_line : Result Text → Action State Unit
  unfolding run
  run_line (raised e) s = (raised e, s)
  run_line (ok line) s = let (ended, s') = run m line ns.watch s in (check_code ended, s')

  unfoldable pub main : (job_id : Text) → Action State Unit
  unfolding command
  main job_id s = run_line (command job_id) s

  check_code_iff : (ended : Ended) → (check_code ended ≡ ok tt) ↔ (ended ≡ exited 0)
  check_code_iff (exited zero) = (λ h. refl, λ h. refl)
  check_code_iff (exited (suc n)) = (λ h. ground arith, λ h. ground arith)
  check_code_iff (signalled n) = (λ h. cc, λ h. cc)

  run_line_lem :
      (r : Result Text) (s : State)
      → ((run_line r s).0 ≡ ok tt)
        ↔ ((line : Text) × (r ≡ ok line) × ((run m line ns.watch s).0 ≡ exited 0))
  unfolding run_line
  run_line_lem (raised e) s = (λ h. cc, λ (line, e, h). cc)
  run_line_lem (ok line) s = (
    λ h. (line, refl, (check_code_iff (run m line ns.watch s).0).0 h),
    λ (cmd, e, h).
        let same : line ≡ cmd = cc e in
        (check_code_iff (run m line ns.watch s).0).1 (ap (λ l. (run m l ns.watch s).0) same ∙ h),
  )

  -- The plugin returns exactly if the command can be filled in and the process ends with code 0.
  main_iff :
      (job_id : Text) (s : State)
      → ((main job_id s).0 ≡ ok tt)
        ↔ ((line : Text) × (command job_id ≡ ok line) × ((run m line ns.watch s).0 ≡ exited 0))
  unfolding main
  main_iff job_id s = run_line_lem (command job_id) s
