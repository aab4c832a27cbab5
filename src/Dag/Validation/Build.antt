-- ===== src/Dag/Validation/Build.antt =====
-- stolos/dag_tools/build.py: `build_dag` with its validation, from the configuration. A value in
-- the place of an app's name that is not a text becomes a node that is no task; the edges here are
-- those between texts.
use stolos.Prelude.{false, Option, none, some, [], ◌∷◌, map, Text, Dict, lookup, txt}
use stolos.Jobs.Actions.{Result, ok, and_then}
use stolos.Dag.MultiGraph.{MultiGraph}
use stolos.Dag.Metadata.{
  Entry, text, scalar, GroupData, Dependencies, on_parents, by_name, not_mapping, Metadata, Values,
  texts,
}
use stolos.Dag.Metadata
use stolos.Dag.Building.{
  Parents, one, unrecognized, DepData, Deps, with_app_name, named, another, build_dag,
}
use stolos.Dag.Building
use stolos.Dag.Validation.Checks.{validate_dag}

module _ (c : Values) where
  open c use {Value, default_name}

  -- `isinstance(parent, ...)`, for the value of `app_name`
  abbrev pub parents_in : Entry Value → Parents
  parents_in (text t) = one t
  parents_in (Metadata.sequence vs) = Building.sequence (texts c vs)
  parents_in (scalar v) = unrecognized

  abbrev pub app_parents : Option (Entry Value) → Option Parents
  app_parents none = none
  app_parents (some x) = some (parents_in x)

  -- `dep_grp['app_name']`, if there is one
  abbrev pub app_name_in : Dict (Entry Value) → Option Parents
  app_name_in dep_grp = app_parents (lookup (txt "app_name") dep_grp)

  abbrev pub dep_data : GroupData Value → DepData
  dep_data (Metadata.mapping dep_grp) = Building.mapping (app_name_in dep_grp)
  dep_data (Metadata.mappings grps) = Building.mappings (map app_name_in grps)
  dep_data Metadata.neither = Building.neither

  abbrev pub dict_deps : Dependencies Value → Deps
  dict_deps (on_parents dep_grp) =
      with_app_name (elim (app_name_in dep_grp) [ none ↦ unrecognized | some p ↦ p ])
  dict_deps (by_name groups) = named (map (λ e. (e.0, dep_data e.1)) groups)
  dict_deps (not_mapping truth) = another

  -- `deps = attr_dict.get('depends_on')`, where it is true; an empty mapping has no edges.
  abbrev pub yielded : Text → Option (Dependencies Value) → Dict Deps → Dict Deps
  yielded app_name none rest = rest
  yielded app_name (some (not_mapping false)) rest = rest
  yielded app_name (some deps) rest = (app_name, dict_deps deps) ∷ rest

  -- `_add_nodes`
  unfoldable pub add_nodes : Dict (Metadata Value) → Dict Deps
  add_nodes [] = []
  add_nodes ((app_name, meta) ∷ tasks) = yielded app_name meta.depends_on (add_nodes tasks)

  -- `build_dag(validate=True)`
  unfoldable pub build_valid_dag : (M : MultiGraph) → Dict (Metadata Value) → Result M.Dg
  unfolding build_dag add_nodes validate_dag
  build_valid_dag M tasks =
      and_then (build_dag M default_name (add_nodes tasks) M.no_edges)
        λ dg. and_then (validate_dag c tasks M dg) λ _. ok dg
