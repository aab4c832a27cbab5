-- ===== src/Jobs/Adding/Examples.antt =====
-- One app whose jobs run unless their date is `old`, on a backend in memory.
use stolos.Prelude.{
  ◌≡◌, ◌⊎◌, refl, true, false, none, some, [], ◌∷◌, Text, txt, text_eq, if◌then◌else◌,
}
use stolos.Jobs.Actions.{Action, ok, raised, pure, dag_misconfigured}
use stolos.Jobs.Backend.Memory.{Tables, memory, no_jobs}
use stolos.Jobs.Paths.{pending_state, join, get_job_path, get_lock_path, add}
use stolos.Jobs.Adding.{Dag, maybe_add_subtask, set_state, as_failed, as_pending}
use stolos.Jobs.States.{Flags, answer, validate_state, check_state}
use stolos.Jobs.Adding.Stored.{check_state-set_state}
use stolos.Jobs.Adding.Outcomes.{maybe_add_refused, maybe_add_fresh, maybe_add_raises}

abbrev dag : Dag
dag = record {
  parse_job_id = λ _ job. ok ((txt "date", job) ∷ []);
  passes_filter = λ _ job. ok (if text_eq job (txt "old") then false else true);
}

-- A filter that raises on every job.
abbrev failing : Dag
failing = record dag { passes_filter = λ _ _. raised dag_misconfigured }

abbrev no_children : Text → Text → Action Tables Unit
no_children app job = pure tt

abbrev app : Text
app = txt "app1"

-- A job is waiting in the queue already.
abbrev before : Tables
before = memory.put app (txt "new0") none no_jobs

abbrev adding : Tables
adding = (memory.acquire (get_lock_path add app (txt "new")) before).1

maybe_add_fresh_example :
    let (r, s') = maybe_add_subtask memory dag no_children app (txt "new") true none before in
    (r ≡ ok true)
    × (memory.node s' (get_job_path app (txt "new")) ≡ some pending_state)
    × (memory.jobs s' app ≡ txt "new0" ∷ txt "new" ∷ [])
    × (memory.locked s' (get_lock_path add app (txt "new")) ≡ false)
maybe_add_fresh_example =
    maybe_add_fresh memory dag no_children app (txt "new") (txt "date", txt "new") [] refl before
      refl refl true true none refl

maybe_add_raises_example :
    let (r, s') = maybe_add_subtask memory failing no_children app (txt "new") true none before in
    (r ≡ raised dag_misconfigured)
    × (memory.jobs s' app ≡ txt "new0" ∷ [])
    × (memory.locked s' (get_lock_path add app (txt "new")) ≡ false)
    × ((memory.node s' (get_job_path app (txt "new")) ≡ none)
        ⊎ ((memory.node s' (get_job_path app (txt "new")) ≡ some [])
            × (maybe_add_subtask memory failing no_children app (txt "new") true none s'
                ≡ (ok false, s'))))
maybe_add_raises_example =
    maybe_add_raises memory failing no_children app (txt "new") (txt "date", txt "new") [] refl
      before refl refl true none dag_misconfigured refl

maybe_add_refused_example :
    maybe_add_subtask memory dag no_children app (txt "new") true (some 3) adding
    ≡ (ok false, adding)
unfolding get_lock_path join get_job_path
maybe_add_refused_example =
    maybe_add_refused memory dag no_children app (txt "new") (txt "date", txt "new") [] refl true
      (some 3) adding refl

check_state-set_state_example :
    let (r, s') = set_state memory dag no_children app (txt "new") as_failed before in
    (r ≡ ok tt)
    × (check_state memory app (txt "new") false false as_pending false s' ≡ ok (answer false))
unfolding validate_state
check_state-set_state_example =
    check_state-set_state memory dag no_children app (txt "new") (txt "date", txt "new") [] refl
      as_failed as_pending false (txt "failed") before before refl refl refl

-- Flags that name no state.
abbrev no_flags : Flags
no_flags = record { pending = false; completed = false; failed = false; skipped = false }
