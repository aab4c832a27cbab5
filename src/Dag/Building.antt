-- ===== src/Dag/Building.antt =====
-- stolos/dag_tools/build.py: the edges of the dag, from the `depends_on` of each task. The graph is
-- a networkx MultiDiGraph, a parameter. `build_dag` with its validation left out.
pub mod Edges
mod Examples
use stolos.Prelude.{
  ℕ, Bool, true, false, ◌&&◌, ◌||◌, Option, none, some, List, [], ◌∷◌, ◌++◌, Text, Dict, text_eq,
  if◌then◌else◌,
}
use stolos.Dag.MultiGraph.{MultiGraph, Edge}
use stolos.Jobs.Actions.{Result, ok, raised, and_then, dag_misconfigured, type_error}

-- The value of `app_name` in a group: a text, a sequence of texts, or anything else.
pub data Parents : Type 0 where
  one : Text → Parents
  sequence : List Text → Parents
  unrecognized : Parents

-- A named value of `depends_on`: a mapping, a sequence of them, or anything else. Of a mapping, or
-- what stands for one, the value of `app_name` is read, if there is one.
pub data DepData : Type 0 where
  mapping : Option Parents → DepData
  mappings : List (Option Parents) → DepData
  neither : DepData

-- `depends_on`: a mapping with app_name, one of named values, or something else that is true, such as
-- a number.
pub data Deps : Type 0 where
  with_app_name : Parents → Deps
  named : Dict DepData → Deps
  another : Deps

module _ (M : MultiGraph) where
  unfoldable pub add_each : (app_name dep_name : Text) → List Text → M.Dg → M.Dg
  add_each app_name dep_name [] dg = dg
  add_each app_name dep_name (p ∷ parents) dg =
      add_each app_name dep_name parents
        (M.add_edge (record { parent = p; child = app_name; key = dep_name }) dg)

  -- `_add_edges`
  unfoldable pub add_edges : (app_name dep_name : Text) → Option Parents → M.Dg → Result M.Dg
  unfolding add_each
  add_edges app_name dep_name none dg = raised dag_misconfigured
  add_edges app_name dep_name (some (one p)) dg = ok (add_each app_name dep_name (p ∷ []) dg)
  add_edges app_name dep_name (some (sequence parents)) dg =
      ok (add_each app_name dep_name parents dg)
  add_edges app_name dep_name (some unrecognized) dg = raised dag_misconfigured

  unfoldable pub add_groups :
      (app_name dep_name : Text) → List (Option Parents) → M.Dg → Result M.Dg
  unfolding add_edges
  add_groups app_name dep_name [] dg = ok dg
  add_groups app_name dep_name (grp ∷ grps) dg =
      and_then (add_edges app_name dep_name grp dg) (add_groups app_name dep_name grps)

  unfoldable pub add_dep_data : (app_name dep_name : Text) → DepData → M.Dg → Result M.Dg
  unfolding add_groups
  add_dep_data app_name dep_name (mapping grp) dg = add_edges app_name dep_name grp dg
  add_dep_data app_name dep_name (mappings grps) dg = add_groups app_name dep_name grps dg
  add_dep_data app_name dep_name neither dg = raised dag_misconfigured

  unfoldable pub add_named : (app_name : Text) → Dict DepData → M.Dg → Result M.Dg
  unfolding add_dep_data
  add_named app_name [] dg = ok dg
  add_named app_name ((dep_name, dep) ∷ deps) dg =
      and_then (add_dep_data app_name dep_name dep dg) (add_named app_name deps)

  -- `_build_dict_deps`
  unfoldable pub build_dict_deps : (default_name app_name : Text) → Deps → M.Dg → Result M.Dg
  unfolding add_named
  build_dict_deps default_name app_name (with_app_name parents) dg =
      add_edges app_name default_name (some parents) dg
  build_dict_deps default_name app_name (named deps) dg = add_named app_name deps dg
  build_dict_deps default_name app_name another dg = raised type_error

  -- `build_dag`, over the tasks that `_add_nodes` yields: those with a `depends_on`
  unfoldable pub build_dag : (default_name : Text) → Dict Deps → M.Dg → Result M.Dg
  unfolding build_dict_deps
  build_dag default_name [] dg = ok dg
  build_dag default_name ((app_name, deps) ∷ tasks) dg =
      and_then (build_dict_deps default_name app_name deps dg) (build_dag default_name tasks)
