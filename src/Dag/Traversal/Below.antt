-- ===== src/Dag/Traversal/Below.antt =====
-- In a dag without cycles, the children that stolos/dag_tools/traversal.py names rank below their
-- parent, as stolos/queue_backend/modify_job_state.py needs to come to an end.
use stolos.Prelude.{
  ℕ, ◌<◌, Bool, true, false, Option, none, some, List, [], ◌∷◌, Text, Dict, mem_text, if◌then◌else◌,
}
use stolos.Jobs.Actions.{Result, ok, raised, dag_misconfigured}
use stolos.Jobs.Generators.{Generated, stops, fails, yields, of_list, followed_by, each_of, when_ok}
use stolos.Jobs.Resetting.Termination.{AreBelow}
use stolos.Dag.Nodes.{parse_job_id}
use stolos.Dag.Tasks.{Tasks, format}
use stolos.Dag.Groups.{Parsed}
use stolos.Dag.Traversal.{
  pairs, unique_ids, generate_job_ids2, inferred, from_parts, by_job_ids, parts_fit, autofilled,
  components_fit, with_single_values, generate_job_ids, child_groups, child_ids, get_children,
}

module _ (rank : Text → ℕ) (n : ℕ) where
  abbrev Below : Generated (Text × Text) → Type 0
  Below = AreBelow rank n

  followed_by-AreBelow :
      (f h : Generated (Text × Text)) → Below f → Below h → Below (followed_by f h)
  followed_by-AreBelow stops h a b = b
  followed_by-AreBelow (fails e) h a b = tt
  followed_by-AreBelow (yields (app, job) f) h a b = (a.0, followed_by-AreBelow f h a.1 b)

  each_of-AreBelow :
      {A : Type 0} (items : List A) (body : A → Generated (Text × Text))
      → ((a : A) → Below (body a))
      → Below (each_of items body)
  each_of-AreBelow [] body all = tt
  each_of-AreBelow (a ∷ items) body all =
      followed_by-AreBelow (body a) (each_of items body) (all a) (each_of-AreBelow items body all)

  when_ok-AreBelow :
      {A : Type 0} (r : Result A) (body : A → Generated (Text × Text))
      → ((a : A) → Below (body a))
      → Below (when_ok r body)
  when_ok-AreBelow (ok a) body all = all a
  when_ok-AreBelow (raised e) body all = tt

  if-AreBelow :
      (b : Bool) (f h : Generated (Text × Text)) → Below f → Below h → Below (if b then f else h)
  if-AreBelow true f h a b = a
  if-AreBelow false f h a b = b

  module _ (k : Tasks) (child : Text) (below : rank child < n) where
    pairs-AreBelow : (ids : List Text) → Below (of_list (pairs k child ids))
    pairs-AreBelow [] = tt
    pairs-AreBelow (i ∷ ids) = (below, pairs-AreBelow ids)

    generate_job_ids2-AreBelow :
        (grp : Parsed k) (parts : Dict k.Value) → Below (generate_job_ids2 k grp parts child)
    unfolding generate_job_ids2
    generate_job_ids2-AreBelow grp parts =
        when_ok-AreBelow _ (λ l. of_list (pairs k child (unique_ids [] l)))
          (λ l. pairs-AreBelow (unique_ids [] l))

    inferred-AreBelow : (grp : Parsed k) (parts : Dict k.Value) → Below (inferred k grp parts child)
    inferred-AreBelow grp parts =
        let ids = generate_job_ids2 k grp parts child in
        if-AreBelow (parts_fit k grp child parts)
          (if autofilled k child parts (k.template child)
            then (if components_fit k grp child parts (k.template child) then ids else stops)
            else fails dag_misconfigured)
          stops
          (if-AreBelow (autofilled k child parts (k.template child))
            (if components_fit k grp child parts (k.template child) then ids else stops)
            (fails dag_misconfigured)
            (if-AreBelow (components_fit k grp child parts (k.template child)) ids stops
              (generate_job_ids2-AreBelow grp parts) tt)
            tt)
          tt

    by_job_ids-AreBelow :
        (job : Text) (grp : Parsed k) (parts : Dict k.Value) (ids : Option (List Text))
        → Below (by_job_ids k job child grp parts ids)
    by_job_ids-AreBelow job grp parts none = inferred-AreBelow grp parts
    by_job_ids-AreBelow job grp parts (some ids) =
        let id = format k (k.layout child) (with_single_values k grp.fields parts) in
        if-AreBelow (mem_text job ids) (when_ok id (λ i. yields (child, i) stops)) stops
          (when_ok-AreBelow id (λ i. yields (child, i) stops) (λ i. (below, tt))) tt

    generate_job_ids-AreBelow :
        (app job : Text) (grp : Parsed k) → Below (generate_job_ids k app job child grp)
    unfolding generate_job_ids
    generate_job_ids-AreBelow app job grp =
        let parts = parse_job_id k.config app job in
        if-AreBelow (mem_text app grp.app_names) (when_ok parts (from_parts k job child grp)) stops
          (when_ok-AreBelow parts (from_parts k job child grp)
            (λ ps. by_job_ids-AreBelow job grp ps grp.job_ids))
          tt

    child_ids-AreBelow :
        (app job group_name : Text) → Below (child_ids k app job (child, group_name))
    unfolding child_ids
    child_ids-AreBelow app job group_name =
        when_ok-AreBelow (child_groups k child group_name)
          (λ grps. each_of grps (generate_job_ids k app job child))
          (λ grps.
            each_of-AreBelow grps (generate_job_ids k app job child)
              (generate_job_ids-AreBelow app job))

abbrev pub AreRankedBelow : (rank : Text → ℕ) → ℕ → List (Text × Text) → Type 0
AreRankedBelow rank n [] = Unit
AreRankedBelow rank n ((app, _) ∷ edges) = (rank app < n) × AreRankedBelow rank n edges

-- Where the edges that leave an app lead to apps of a lower rank, so do the children of each of its
-- jobs.
pub get_children-AreBelow :
    (k : Tasks) (rank : Text → ℕ) (successors : Text → List (Text × Text))
    → ((app : Text) → AreRankedBelow rank (rank app) (successors app))
    → (app job : Text) → AreBelow rank (rank app) (get_children k successors app job)
unfolding get_children
get_children-AreBelow k rank successors ranked app job = each (successors app) (ranked app)
  where
    each :
        (edges : List (Text × Text))
        → AreRankedBelow rank (rank app) edges
        → AreBelow rank (rank app) (each_of edges (child_ids k app job))
    each [] below = tt
    each ((child, group_name) ∷ edges) below =
        followed_by-AreBelow rank (rank app) (child_ids k app job (child, group_name))
          (each_of edges (child_ids k app job))
          (child_ids-AreBelow rank (rank app) k child below.0 app job group_name)
          (each edges below.1)
