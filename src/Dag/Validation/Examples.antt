-- ===== src/Dag/Validation/Examples.antt =====
-- Configurations of two and of three groups, and what the validation makes of them.
use mathlib.Core.Logic.{◌↔◌}
use stolos.Prelude.{
  ◌≡◌, ◌≢◌, refl, true, none, some, List, [], ◌∷◌, Text, Dict, lookup, txt, is_some,
}
use stolos.Jobs.Actions.{ok}
use stolos.Dag.MultiGraph.{Edge}
use stolos.Dag.MultiGraph.Memory.{memory}
use stolos.Dag.Metadata.{Entry, sequence, mappings, on_parents, by_name, Metadata}
use stolos.Dag.Building.{
  add_each, add_edges, add_groups, add_dep_data, add_named, build_dict_deps, build_dag,
}
use stolos.Dag.Validation.Samples.{values}
use stolos.Dag.Validation.Groups.{parents_of, validate_metadata, validate_named}
use stolos.Dag.Validation.Checks.{validate_dag}
use stolos.Dag.Validation.Build.{add_nodes, build_valid_dag}
use stolos.Dag.Validation.Outcomes.{All}
use stolos.Dag.Validation.WellFormed.{IsParent, IsChoice, validate_metadata_iff}
use stolos.Dag.Validation.Known.{build_valid_dag-is_task}
use stolos.Dag.Validation.Consistency.{three_groups_refused}

abbrev plain : Metadata Text
plain = record { job_id = none; depends_on = none; valid_if_or = none; autofill_values = none }

abbrev on : Text → Dict (Entry Text)
on parent = (txt "app_name", sequence (parent ∷ [])) ∷ []

abbrev child : Metadata Text
child = record plain { depends_on = some (on_parents (on (txt "a"))) }

abbrev grandchild : Metadata Text
grandchild = record plain {
  depends_on = some (by_name ((txt "grp", mappings (on (txt "a") ∷ on (txt "b") ∷ [])) ∷ []));
}

abbrev tasks : Dict (Metadata Text)
tasks = (txt "a", plain) ∷ (txt "b", child) ∷ (txt "c", grandchild) ∷ []

abbrev edge : Text → Text → Text → Edge
edge p c k = record { parent = p; child = c; key = k }

abbrev dag : List Edge
dag =
    edge (txt "a") (txt "b") (txt "default")
    ∷ edge (txt "a") (txt "c") (txt "grp")
    ∷ edge (txt "b") (txt "c") (txt "grp")
    ∷ []

build_valid_dag-is_task_example :
    (memory.is_acyclic dag ≡ true) × (is_some (lookup (txt "b") tasks) ≡ true)
unfolding build_valid_dag add_nodes build_dag build_dict_deps add_named add_dep_data add_groups
    add_edges add_each validate_dag
build_valid_dag-is_task_example =
    build_valid_dag-is_task values tasks memory dag refl (edge (txt "b") (txt "c") (txt "grp")) refl
      refl

validate_metadata_iff_example : (validate_metadata values tasks child (on (txt "a")) ≡ ok tt) ↔ (
    (parents : List Text) × (parents_of values tasks (on (txt "a")) ≡ ok parents)
    × All (IsParent values tasks child (on (txt "a"))) parents
    × All (λ e. IsChoice values tasks child e.1) (on (txt "a")))
validate_metadata_iff_example = validate_metadata_iff values tasks child (on (txt "a"))

three_groups_refused_example :
    validate_named values tasks grandchild
      (mappings (on (txt "a") ∷ on (txt "a") ∷ on (txt "a") ∷ []))
    ≢ ok tt
three_groups_refused_example =
    three_groups_refused values tasks grandchild (on (txt "a")) (on (txt "a")) (on (txt "a")) []
      (txt "date") [] refl (refl, (refl, (refl, tt)))
