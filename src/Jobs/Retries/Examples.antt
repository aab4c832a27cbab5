-- ===== src/Jobs/Retries/Examples.antt =====
-- A job that fails for the third time where three failures are allowed.
use stolos.Prelude.{◌≡◌, refl, true, some, [], ◌∷◌, Text, txt, decimal}
use stolos.Jobs.Actions.{Action, ok, pure}
use stolos.Jobs.Backend.Memory.{Tables, memory, no_jobs}
use stolos.Jobs.Paths.{failed_state, get_job_path}
use stolos.Jobs.Adding.{Dag}
use stolos.Jobs.Retries.{inc_retry_count, retry_path}
use stolos.Jobs.Retries.Limit.{failures, retry_limit}

abbrev dag : Dag
dag = record { parse_job_id = λ _ job. ok ((txt "date", job) ∷ []); passes_filter = λ _ _. ok true }

abbrev no_children : Text → Text → Action Tables Unit
no_children app job = pure tt

abbrev job : Text
job = txt "1"

abbrev app : Text
app = txt "app1"

abbrev twice : Tables
twice = failures memory dag no_children app job (txt "date", job) [] refl 3 2 no_jobs

retry_limit_example :
    let (r, s') = inc_retry_count memory dag no_children app job 3 twice in
    (r ≡ ok true)
    × (memory.node s' (retry_path memory dag no_children app job) ≡ some (decimal 3))
    × (memory.node s' (get_job_path app job) ≡ some failed_state)
retry_limit_example =
    retry_limit memory dag no_children app job (txt "date", job) [] refl 3 2 no_jobs refl
