-- ===== src/Dag/Building/Examples.antt =====
-- A task that depends on two others, one of them under a name.
use stolos.Prelude.{◌≡◌, refl, true, some, List, [], ◌∷◌, Text, Dict, txt}
use stolos.Dag.MultiGraph.{Edge}
use stolos.Dag.MultiGraph.Memory.{memory}
use stolos.Dag.Building.{
  one, sequence, mappings, Deps, with_app_name, named, build_dag, build_dict_deps, add_named,
  add_dep_data, add_groups, add_edges, add_each,
}
use stolos.Dag.Building.Edges.{build_dag-lists}

abbrev conf : Dict Deps
conf =
    (txt "b", with_app_name (one (txt "a")))
    ∷ (txt "c", named ((txt "grp", mappings (some (sequence (txt "a" ∷ txt "b" ∷ [])) ∷ [])) ∷ []))
    ∷ []

abbrev edge : Text → Text → Text → Edge
edge p c k = record { parent = p; child = c; key = k }

abbrev edges : List Edge
edges =
    edge (txt "a") (txt "b") (txt "default")
    ∷ edge (txt "a") (txt "c") (txt "grp")
    ∷ edge (txt "b") (txt "c") (txt "grp")
    ∷ []

build_dag-lists_example : memory.has_edge (edge (txt "b") (txt "c") (txt "grp")) edges ≡ true
unfolding build_dag build_dict_deps add_named add_dep_data add_groups add_edges add_each
build_dag-lists_example =
    build_dag-lists memory (txt "default") conf edges refl (edge (txt "b") (txt "c") (txt "grp"))
