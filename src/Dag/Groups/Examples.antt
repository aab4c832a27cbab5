-- ===== src/Dag/Groups/Examples.antt =====
-- A group that depends on all dates and all clients, of which the parent has dates only.
use stolos.Prelude.{◌≡◌, refl, none, some, [], ◌∷◌, Text, txt, lookup}
use stolos.Dag.Samples.{tasks}
use stolos.Dag.Tasks.{Choice, all_values, Group}
use stolos.Dag.Groups.{Parsed, parse_for, fill_keys}
use stolos.Dag.Groups.Values.{parse_for_letters}

abbrev group : Group (Choice Text)
group = record {
  app_names = txt "a" ∷ [];
  job_ids = none;
  fields = (txt "date", all_values) ∷ (txt "client", all_values) ∷ [];
}

abbrev parsed : Parsed tasks
parsed = record {
  app_names = txt "a" ∷ [];
  job_ids = none;
  fields =
      (txt "date", txt "1" ∷ txt "2" ∷ []) ∷ (txt "client", txt "a" ∷ txt "l" ∷ txt "l" ∷ []) ∷ [];
}

parse_for_letters_example :
    lookup (txt "client") parsed.fields ≡ some (txt "a" ∷ txt "l" ∷ txt "l" ∷ [])
unfolding parse_for fill_keys
parse_for_letters_example =
    parse_for_letters tasks group (txt "a") (txt "client") parsed refl refl refl refl
