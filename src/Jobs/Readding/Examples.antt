-- ===== src/Jobs/Readding/Examples.antt =====
-- A job of `b` that the backend knows.
use stolos.Prelude.{◌≡◌, refl, true, false, none, some, [], ◌∷◌, Text, txt}
use stolos.Jobs.Actions.{Action, ok, pure}
use stolos.Jobs.Backend.Memory.{Tables, memory, no_jobs}
use stolos.Jobs.Paths.{add, join, get_job_path, get_lock_path, pending_state, completed_state}
use stolos.Jobs.Queues.Memory.{worker}
use stolos.Jobs.Graph.Samples.{graph}
use stolos.Jobs.Resetting.{reset_each, reset_children}
use stolos.Jobs.Readding.{readd_subtask}
use stolos.Jobs.Readding.Outcomes.{readd_queues}

abbrev no_children : Text → Text → Action Tables Unit
no_children app job = pure tt

abbrev app : Text
app = txt "b"

abbrev job : Text
job = txt "1"

-- The job has run before.
abbrev known : Tables
known = memory.write (get_job_path app job) completed_state no_jobs

abbrev queued : Tables
queued = memory.put app job none known

abbrev being_added : Tables
being_added = (memory.acquire (get_lock_path add app job) known).1

-- The job has no descendants, so the default of resetting them does nothing here.
readd_queues_example :
    let (r, s') = readd_subtask worker graph no_children 9 app job false true true known in
    (r ≡ ok true)
    × (memory.node s' (get_job_path app job) ≡ some pending_state)
    × (memory.jobs s' app ≡ job ∷ [])
    × (memory.locked s' (get_lock_path add app job) ≡ false)
unfolding reset_children reset_each get_lock_path join get_job_path
readd_queues_example =
    readd_queues worker graph no_children 9 app job (txt "date", job) [] refl known refl refl false
      true true true being_added refl refl (λ l at held. held) refl
