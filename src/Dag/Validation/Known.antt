-- ===== src/Dag/Validation/Known.antt =====
-- What `build_dag(validate=True)` of stolos/dag_tools/build.py ensures of the dag.
use mathlib.Core.Path.{subst}
use stolos.Prelude.{
  ◌≡◌, refl, ◌∙◌, ap, sym, Bool, true, false, not, Option, none, some, List, [], ◌∷◌, arith, Text,
  Dict, lookup, txt, text_eq, text_eq_iff, mem_text, is_some, inl, inr, Bool-cases, Option-cases,
}
use stolos.Jobs.Actions.{ok}
use stolos.Dag.MultiGraph.{MultiGraph, Edge}
use stolos.Dag.Metadata.{
  Entry, sequence, text, scalar, Dependencies, on_parents, by_name, not_mapping, Metadata, Values,
  texts, and_text,
}
use stolos.Dag.Building.{Deps, build_dag}
use stolos.Dag.Building.Edges.{lists, deps_list, lists_parent, build_dag-lists}
use stolos.Dag.Validation.{raise_if}
use stolos.Dag.Validation.Groups.{task_at, known_task, validate_metadata, parents_of}
use stolos.Dag.Validation.Checks.{validate_depends_on, validate_task, validate_dag}
use stolos.Dag.Validation.Build.{app_parents, dict_deps, yielded, add_nodes, build_valid_dag}
use stolos.Dag.Validation.Outcomes.{
  All, All-lookup, All-mem_text, and_then-eq-ok, then-ok, raise_if-ok, each-ok,
}
use stolos.Dag.Validation.WellFormed.{IsParent, IsChoice, validate_metadata_iff}

module _ (c : Values) (tasks : Dict (Metadata c.Value)) where
  open c use {Value, as_text, default_name}

  abbrev is_task : Text → Bool
  is_task p = is_some (lookup p tasks)

  module _ (meta : Metadata Value) where
    known-is_task :
        (v : Value) (p : Text) (parent : Metadata Value)
        → as_text v ≡ some p
        → known_task c tasks v ≡ some parent
        → is_task p ≡ true
    unfolding known_task
    known-is_task v p parent e found = ap is_some (ap (task_at c tasks) (sym e) ∙ found)

    -- Each text among values that name tasks is a task.
    mem-texts-is_task :
        (dep_grp : Dict (Entry Value)) (p : Text) (vs : List Value)
        → All (IsParent c tasks meta dep_grp) vs
        → mem_text p (texts c vs) ≡ true
        → is_task p ≡ true
    mem-texts-is_task dep_grp p [] h m = cc
    mem-texts-is_task dep_grp p (v ∷ vs) h m =
        let at : (o : Option Text) → as_text v ≡ o → mem_text p (and_text c o (texts c vs)) ≡ true =
          λ o e. ap (λ x. mem_text p (and_text c x (texts c vs))) (sym e) ∙ m in
        elim (Option-cases (as_text v)) [
          | inl away ↦ mem-texts-is_task dep_grp p vs h.1 (at none away)
          | inr (t, e) ↦ elim (Bool-cases (text_eq p t)) [
            | inl here ↦
                known-is_task v p h.0.parent (e ∙ ap some (sym ((text_eq_iff p t).0 here)))
                  h.0.is_known
            | inr later ↦ mem-texts-is_task dep_grp p vs h.1 (ground (arith, at (some t) e, later))
          ]
        ]

    -- A group names tasks alone, but for the text "all" in the place of a sequence.
    unnamed-is_task :
        (dep_grp : Dict (Entry Value)) (p : Text) (x : Option (Entry Value))
        → lookup (txt "app_name") dep_grp ≡ x
        → validate_metadata c tasks meta dep_grp ≡ ok tt
        → lists_parent p (app_parents c x) ≡ true
        → text_eq p (txt "all") ≡ false
        → is_task p ≡ true
    unfolding parents_of
    unnamed-is_task dep_grp p none e valid m other = cc
    unnamed-is_task dep_grp p (some (text t)) e valid m other =
        let (vs, found, parents, entries) = (validate_metadata_iff c tasks meta dep_grp).0 valid in
        let all : t ≡ txt "all" =
          All-lookup (IsChoice c tasks meta) (txt "app_name") dep_grp entries e in
        cc (m, other, ap (text_eq p) all)
    unnamed-is_task dep_grp p (some (sequence ws)) e valid m other =
        let (vs, found, parents, entries) = (validate_metadata_iff c tasks meta dep_grp).0 valid in
        let same : ws ≡ vs = cc (rw e at found) in
        mem-texts-is_task dep_grp p vs parents (rw same at m)
    unnamed-is_task dep_grp p (some (scalar v)) e valid m other = cc

  module _ (M : MultiGraph) (dg : M.Dg) (e : Edge)
      (other : text_eq e.parent (txt "all") ≡ false) where
    -- The edges of one valid task come from tasks.
    depends_on-is_task :
        (app_name : Text) (meta : Metadata Value) (deps : Dependencies Value)
        → validate_depends_on c tasks M dg app_name meta (some deps) ≡ ok tt
        → M.has_edge e dg ≡ true
        → text_eq e.child app_name ≡ true
        → deps_list default_name e.parent e.key (dict_deps c deps) ≡ true
        → is_task e.parent ≡ true
    unfolding validate_depends_on
    depends_on-is_task app_name meta (on_parents dep_grp) valid there here m =
        unnamed-is_task meta dep_grp e.parent (lookup (txt "app_name") dep_grp) refl valid
          (ground (arith, m)) other
    depends_on-is_task app_name meta (by_name groups) valid there here m =
        let (done, preds) = (then-ok _ _).0 valid in
        let child = (text_eq_iff e.child app_name).0 here in
        let checked : raise_if (not (is_task e.parent)) ≡ ok tt =
          All-mem_text (λ p. raise_if (not (is_task p)) ≡ ok tt) e.parent
            (M.predecessors app_name dg) ((each-ok _ _).0 preds)
            (ap (λ a. mem_text e.parent (M.predecessors a dg)) (sym child)
              ∙ M.mem-predecessors e dg there) in
        ground (arith, (raise_if-ok (not (is_task e.parent))).0 checked)
    depends_on-is_task app_name meta (not_mapping truth) valid there here m = cc

    own-is_task :
        (app_name : Text) (meta : Metadata Value) (deps : Dependencies Value) (rest : Dict Deps)
        → validate_depends_on c tasks M dg app_name meta (some deps) ≡ ok tt
        → M.has_edge e dg ≡ true
        → lists default_name ((app_name, dict_deps c deps) ∷ rest) e ≡ true
        → (lists default_name rest e ≡ true → is_task e.parent ≡ true)
        → is_task e.parent ≡ true
    own-is_task app_name meta deps rest valid there m later =
        elim (Bool-cases (lists default_name rest e)) [
          | inl there' ↦ later there'
          | inr not_later ↦
              depends_on-is_task app_name meta deps valid there (ground (arith, m, not_later))
                (ground (arith, m, not_later))
        ]

    task-is_task :
        (app_name : Text) (meta : Metadata Value) (d : Option (Dependencies Value))
        (rest : Dict Deps)
        → validate_depends_on c tasks M dg app_name meta d ≡ ok tt
        → M.has_edge e dg ≡ true
        → lists default_name (yielded c app_name d rest) e ≡ true
        → (lists default_name rest e ≡ true → is_task e.parent ≡ true)
        → is_task e.parent ≡ true
    unfolding validate_depends_on
    task-is_task app_name meta none rest valid there m later = later m
    task-is_task app_name meta (some (not_mapping false)) rest valid there m later = later m
    task-is_task app_name meta (some (not_mapping true)) rest valid there m later = cc
    task-is_task app_name meta (some (on_parents dep_grp)) rest valid there m later =
        own-is_task app_name meta (on_parents dep_grp) rest valid there m later
    task-is_task app_name meta (some (by_name groups)) rest valid there m later =
        own-is_task app_name meta (by_name groups) rest valid there m later

    tasks-is_task :
        (ts : Dict (Metadata Value))
        → All (λ t. validate_task c tasks M dg t ≡ ok tt) ts
        → M.has_edge e dg ≡ true
        → lists default_name (add_nodes c ts) e ≡ true
        → is_task e.parent ≡ true
    unfolding validate_task add_nodes
    tasks-is_task [] valid there m = cc
    tasks-is_task ((app_name, meta) ∷ ts) valid there m =
        task-is_task app_name meta meta.depends_on (add_nodes c ts) ((then-ok _ _).0 valid.0).0
          there m (tasks-is_task ts valid.1 there)

  abbrev FromTasks : (M : MultiGraph) → M.Dg → Type 0
  FromTasks M dg =
      (M.is_acyclic dg ≡ true)
      × ((e : Edge)
          → M.has_edge e dg ≡ true
          → text_eq e.parent (txt "all") ≡ false
          → is_task e.parent ≡ true)

  validate_dag-FromTasks :
      (M : MultiGraph) (dg : M.Dg)
      → build_dag M default_name (add_nodes c tasks) M.no_edges ≡ ok dg
      → validate_dag c tasks M dg ≡ ok tt
      → FromTasks M dg
  unfolding validate_dag
  validate_dag-FromTasks M dg made valid = elim (Bool-cases (M.is_acyclic dg)) [
    | inl acyclic ↦ (
      acyclic,
      λ e there other.
          tasks-is_task M dg e other tasks
            ((each-ok (validate_task c tasks M dg) tasks).0 (rw acyclic at valid)) there
            (sym (build_dag-lists M default_name (add_nodes c tasks) dg made e) ∙ there),
    )
    | inr cyclic ↦ cc (rw cyclic at valid)
  ]

  -- A dag that is built and validated is acyclic, and each of its edges comes from a task, but for
  -- edges from the name "all".
  pub build_valid_dag-is_task :
      (M : MultiGraph) (dg : M.Dg)
      → build_valid_dag c M tasks ≡ ok dg
      → (e : Edge) → M.has_edge e dg ≡ true
      → text_eq e.parent (txt "all") ≡ false
      → (M.is_acyclic dg ≡ true) × (is_some (lookup e.parent tasks) ≡ true)
  unfolding build_valid_dag
  build_valid_dag-is_task M dg built e there other =
      let (dg', made, rest) =
        and_then-eq-ok (build_dag M default_name (add_nodes c tasks) M.no_edges) _ built in
      let (done, valid, last) = and_then-eq-ok (validate_dag c tasks M dg') _ rest in
      let same : dg' ≡ dg = cc last in
      let sound = subst (FromTasks M) same (validate_dag-FromTasks M dg' made valid) in
      (sound.0, sound.1 e there other)
