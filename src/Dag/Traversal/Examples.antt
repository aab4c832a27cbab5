-- ===== src/Dag/Traversal/Examples.antt =====
-- The children of the job `1` of `a`: one for each client of `b`.
use mathlib.Core.Logic.{◌↔◌}
use stolos.Prelude.{◌≡◌, refl, true, none, List, [], ◌∷◌, Text, Dict, txt, mem_text, split}
use stolos.Jobs.Generators.{stops, yields, of_list}
use stolos.Dag.Samples.{tasks, successors}
use stolos.Dag.Groups.{Parsed, convert_dep_grp_to_parsed_list}
use stolos.Dag.Tasks.{format}
use stolos.Dag.Product.{crossproduct}
use stolos.Dag.Product.Choices.{Picks}
use stolos.Jobs.Actions.{ok}
use stolos.Dag.Nodes.{parse_job_id}
use stolos.Dag.Traversal.{
  zip_dict, prep_crossproduct, format_each, pairs, generate_job_ids2, get_children, child_ids,
  generate_job_ids, unique_ids,
}
use stolos.Dag.Traversal.Unique.{no_dups, generate_job_ids2_unique}

abbrev group : Parsed tasks
group = record { app_names = txt "a" ∷ []; job_ids = none; fields = [] }

abbrev parts : Dict Text
parts = (txt "date", txt "1") ∷ []

abbrev ids : List Text
ids = txt "1_x" ∷ txt "1_y" ∷ []

-- The values of the date and of the client.
abbrev values : List (List Text)
values = (txt "1" ∷ []) ∷ (txt "x" ∷ txt "y" ∷ []) ∷ []

generate_job_ids2_unique_example :
    (l : List Text) × (generate_job_ids2 tasks group parts (txt "b")
      ≡ of_list (pairs tasks (txt "b") l))
    × (no_dups l ≡ true)
    × ((x : Text)
        → (mem_text x l ≡ true) ↔ (
            (choice : List Text) × Picks choice values
            × (format tasks (tasks.layout (txt "b")) (zip_dict (tasks.template (txt "b")) choice)
                ≡ ok x)))
unfolding prep_crossproduct format_each crossproduct format
generate_job_ids2_unique_example =
    generate_job_ids2_unique tasks group parts (txt "b") values ids refl refl

get_children_runs :
    get_children tasks successors (txt "a") (txt "1")
    ≡ yields (txt "b", txt "1_x") (yields (txt "b", txt "1_y") stops)
unfolding get_children child_ids convert_dep_grp_to_parsed_list generate_job_ids generate_job_ids2
    prep_crossproduct format_each crossproduct format parse_job_id unique_ids split
get_children_runs = refl
