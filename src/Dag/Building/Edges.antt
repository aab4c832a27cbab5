-- ===== src/Dag/Building/Edges.antt =====
-- The edges that stolos/dag_tools/build.py makes are the dependencies that the configuration lists.
use stolos.Prelude.{
  ◌≡◌, refl, ◌∙◌, ap, Bool, false, ◌&&◌, ◌||◌, Option, none, some, List, [], ◌∷◌, arith, Text, Dict,
  text_eq, mem_text,
}
use stolos.Jobs.Actions.{Result, ok, OnOk, OnOk-at, OnOk-mono, OnOk-and_then, and_then}
use stolos.Dag.MultiGraph.{MultiGraph, Edge}
use stolos.Dag.Building.{
  Parents, one, sequence, unrecognized, DepData, mapping, mappings, neither, Deps, with_app_name,
  named, another, add_each, add_edges, add_groups, add_dep_data, add_named, build_dict_deps,
  build_dag,
}

-- What the configuration lists: a value of `app_name`, a named value, a task, the tasks.
abbrev pub lists_parent : Text → Option Parents → Bool
lists_parent p none = false
lists_parent p (some (one q)) = text_eq p q
lists_parent p (some (sequence qs)) = mem_text p qs
lists_parent p (some unrecognized) = false

abbrev pub any_lists : Text → List (Option Parents) → Bool
any_lists p [] = false
any_lists p (grp ∷ grps) = lists_parent p grp || any_lists p grps

abbrev pub dep_lists : Text → DepData → Bool
dep_lists p (mapping grp) = lists_parent p grp
dep_lists p (mappings grps) = any_lists p grps
dep_lists p neither = false

abbrev pub named_lists : (p key : Text) → Dict DepData → Bool
named_lists p key [] = false
named_lists p key ((name, dep) ∷ deps) =
    (text_eq key name && dep_lists p dep) || named_lists p key deps

abbrev pub deps_list : (default_name p key : Text) → Deps → Bool
deps_list default_name p key (with_app_name parents) =
    text_eq key default_name && lists_parent p (some parents)
deps_list default_name p key (named deps) = named_lists p key deps
deps_list default_name p key another = false

abbrev pub lists : (default_name : Text) → Dict Deps → Edge → Bool
lists default_name [] e = false
lists default_name ((app_name, deps) ∷ tasks) e =
    (text_eq e.child app_name && deps_list default_name e.parent e.key deps)
    || lists default_name tasks e

module _ (M : MultiGraph) (e : Edge) where
  -- The edge is there if it was, or if it is one of these.
  abbrev Adds : M.Dg → Bool → M.Dg → Type 0
  Adds edges new edges' = M.has_edge e edges' ≡ (M.has_edge e edges || new)

  then-Adds :
      (edges : M.Dg) (r : Result M.Dg) (f : M.Dg → Result M.Dg) (x y z : Bool)
      → z ≡ (x || y)
      → OnOk (Adds edges x) r
      → ((es : M.Dg) → OnOk (Adds es y) (f es))
      → OnOk (Adds edges z) (and_then r f)
  then-Adds edges r f x y z both first rest = OnOk-and_then (Adds edges z) r f λ es made.
      let h : Adds edges x es = OnOk-at (Adds edges x) made first in
      OnOk-mono (Adds es y) (Adds edges z) (f es) (λ es' h'. ground (arith, h, h', both)) (rest es)

  module _ (app name : Text) where
    abbrev is_here : Bool
    is_here = text_eq e.child app && text_eq e.key name

    add_each-Adds :
        (parents : List Text) (edges : M.Dg)
        → Adds edges (is_here && mem_text e.parent parents) (add_each M app name parents edges)
    unfolding add_each
    add_each-Adds [] edges = ground arith
    add_each-Adds (p ∷ parents) edges =
        let f : Edge = record { parent = p; child = app; key = name } in
        ground (arith, add_each-Adds parents (M.add_edge f edges), M.has_edge-add_edge e f edges)

    add_edges-Adds :
        (grp : Option Parents) (edges : M.Dg)
        → OnOk (Adds edges (is_here && lists_parent e.parent grp)) (add_edges M app name grp edges)
    unfolding add_edges
    add_edges-Adds none edges = tt
    add_edges-Adds (some (one p)) edges = add_each-Adds (p ∷ []) edges ∙ ground arith
    add_edges-Adds (some (sequence ps)) edges = add_each-Adds ps edges
    add_edges-Adds (some unrecognized) edges = tt

    add_groups-Adds :
        (grps : List (Option Parents)) (edges : M.Dg)
        → OnOk (Adds edges (is_here && any_lists e.parent grps)) (add_groups M app name grps edges)
    unfolding add_groups
    add_groups-Adds [] edges = ground arith
    add_groups-Adds (grp ∷ grps) edges =
        then-Adds edges (add_edges M app name grp edges) (add_groups M app name grps)
          (is_here && lists_parent e.parent grp) (is_here && any_lists e.parent grps)
          (is_here && (lists_parent e.parent grp || any_lists e.parent grps)) (ground arith)
          (add_edges-Adds grp edges) (add_groups-Adds grps)

    add_dep_data-Adds :
        (dep : DepData) (edges : M.Dg)
        → OnOk (Adds edges (is_here && dep_lists e.parent dep)) (add_dep_data M app name dep edges)
    unfolding add_dep_data
    add_dep_data-Adds (mapping grp) edges = add_edges-Adds grp edges
    add_dep_data-Adds (mappings grps) edges = add_groups-Adds grps edges
    add_dep_data-Adds neither edges = tt

  add_named-Adds :
      (app : Text) (deps : Dict DepData) (edges : M.Dg)
      → OnOk
          (Adds edges (text_eq e.child app && named_lists e.parent e.key deps))
          (add_named M app deps edges)
  unfolding add_named
  add_named-Adds app [] edges = ground arith
  add_named-Adds app ((name, dep) ∷ deps) edges =
      let here = text_eq e.child app in
      let first = text_eq e.key name && dep_lists e.parent dep in
      let rest = named_lists e.parent e.key deps in
      then-Adds edges (add_dep_data M app name dep edges) (add_named M app deps)
        ((here && text_eq e.key name) && dep_lists e.parent dep) (here && rest)
        (here && (first || rest)) (ground arith) (add_dep_data-Adds app name dep edges)
        (add_named-Adds app deps)

  build_dict_deps-Adds :
      (default_name app : Text) (deps : Deps) (edges : M.Dg)
      → OnOk
          (Adds edges (text_eq e.child app && deps_list default_name e.parent e.key deps))
          (build_dict_deps M default_name app deps edges)
  unfolding build_dict_deps
  build_dict_deps-Adds default_name app (with_app_name parents) edges =
      OnOk-mono
        (Adds edges (
          (text_eq e.child app && text_eq e.key default_name)
          && lists_parent e.parent (some parents)))
        (Adds edges (
          text_eq e.child app
          && (text_eq e.key default_name && lists_parent e.parent (some parents))))
        (add_edges M app default_name (some parents) edges) (λ es h. h ∙ ground arith)
        (add_edges-Adds app default_name (some parents) edges)
  build_dict_deps-Adds default_name app (named deps) edges = add_named-Adds app deps edges
  build_dict_deps-Adds default_name app another edges = tt

  build_dag-Adds :
      (default_name : Text) (tasks : Dict Deps) (edges : M.Dg)
      → OnOk (Adds edges (lists default_name tasks e)) (build_dag M default_name tasks edges)
  unfolding build_dag
  build_dag-Adds default_name [] edges = ground arith
  build_dag-Adds default_name ((app, deps) ∷ tasks) edges =
      let first = text_eq e.child app && deps_list default_name e.parent e.key deps in
      then-Adds edges (build_dict_deps M default_name app deps edges)
        (build_dag M default_name tasks) first (lists default_name tasks e)
        (first || lists default_name tasks e) refl
        (build_dict_deps-Adds default_name app deps edges) (build_dag-Adds default_name tasks)

-- Where the dag is built without an error, its edges are exactly the dependencies that the tasks
-- list: from each app that a group of a task names to the task, with the name of the group.
pub build_dag-lists :
    (M : MultiGraph) (default_name : Text) (tasks : Dict Deps) (dg : M.Dg)
    → build_dag M default_name tasks M.no_edges ≡ ok dg
    → (e : Edge) → M.has_edge e dg ≡ lists default_name tasks e
build_dag-lists M default_name tasks dg built e =
    OnOk-at (Adds M e M.no_edges (lists default_name tasks e)) built
      (build_dag-Adds M e default_name tasks M.no_edges)
    ∙ ap (λ b. b || lists default_name tasks e) (M.has_edge-no_edges e)
