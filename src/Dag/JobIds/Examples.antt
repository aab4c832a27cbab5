-- ===== src/Dag/JobIds/Examples.antt =====
-- The id of a job with a date and a client.
use stolos.Prelude.{◌≡◌, refl, [], ◌∷◌, Text, Dict, txt, text_eq, if◌then◌else◌}
use stolos.Jobs.Actions.{ok}
use stolos.Dag.Nodes.{parse_job_id}
use stolos.Dag.Samples.{tasks}
use stolos.Dag.JobIds.{create_job_id}
use stolos.Dag.JobIds.RoundTrip.{IsReadBack, HasAll, parse_job_id-create_job_id}

abbrev identifiers : Dict Text
identifiers = (txt "client", txt "x_1") ∷ (txt "date", txt "20140606") ∷ []

abbrev value : Text → Text
value key = if text_eq key (txt "date") then txt "20140606" else txt "x_1"

date : IsReadBack tasks identifiers value (txt "date")
date = record { given = txt "20140606"; found = refl; accepted = refl; read_back = refl }

client : IsReadBack tasks identifiers value (txt "client")
client = record { given = txt "x_1"; found = refl; accepted = refl; read_back = refl }

parse_job_id-create_job_id_example :
    (job_id : Text) × (parts : Dict Text) × (create_job_id tasks (txt "b") identifiers ≡ ok job_id)
    × (parse_job_id tasks.config (txt "b") job_id ≡ ok parts)
    × HasAll tasks identifiers value (txt "date" ∷ txt "client" ∷ []) parts
parse_job_id-create_job_id_example =
    parse_job_id-create_job_id tasks identifiers value b'_' (txt "b") (txt "date")
      (txt "client" ∷ []) refl refl (date, (client, tt)) refl
