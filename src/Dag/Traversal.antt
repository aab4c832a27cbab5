-- ===== src/Dag/Traversal.antt =====
-- stolos/dag_tools/traversal.py: the ids of the parents and of the children of a job.
pub mod Unique
pub mod Below
mod Examples
use stolos.Prelude.{
  ℕ, ◌≡◌, Bool, true, false, not, ◌&&◌, ◌||◌, Option, none, some, List, [], ◌∷◌, ◌++◌, Text, Dict,
  lookup, insert, txt, text_eq, mem_text, is_some, length, ◌==◌, if◌then◌else◌,
}
use stolos.Jobs.Actions.{
  Result, ok, raised, and_then, cons_result, map_ok, key_error, dag_misconfigured, invalid_job_id,
}
use stolos.Jobs.Generators.{Generated, stops, fails, yields, of_list, followed_by, each_of, when_ok}
use stolos.Dag.Nodes.{parse_job_id}
use stolos.Dag.Product.{crossproduct}
use stolos.Dag.Tasks.{
  Tasks, Choice, Group, Groups, single, several, DependsOn, unnamed, by_name, mem_value, item,
  format, autofill_or_empty,
}
use stolos.Dag.Groups.{
  Parsed, has_key, allows, only, convert_dep_grp_to_parsed_list, dep_group_and_job_id_compatible,
  get_grps,
}

-- `dict(zip(keys, values))`, where the last value of a key counts
abbrev pub zip_dict : {A : Type 0} → List Text → List A → Dict A
zip_dict (key ∷ keys) (v ∷ vs) =
    let rest = zip_dict keys vs in if is_some (lookup key rest) then rest else (key, v) ∷ rest
zip_dict _ _ = []

-- The ids that are not in `so_far` yet, each once.
unfoldable pub unique_ids : (so_far ids : List Text) → List Text
unique_ids so_far [] = []
unique_ids so_far (i ∷ ids) =
    let seen = unique_ids so_far ids in
    let new = i ∷ unique_ids (i ∷ so_far) ids in if mem_text i so_far then seen else new

module _ (k : Tasks) where
  open k use {config, Value, template, layout, show, same}

  -- The values that a component of the child's id can have
  abbrev component :
      Parsed k → (autofill : Dict (List Value)) → Dict Value → Text → Result (List Value)
  component grp autofill parts key =
      if has_key k key grp.fields
      then item k key grp.fields
      else if has_key k key autofill && not (in_own key)
      then item k key autofill
      else and_then (item k key parts) (λ v. ok (v ∷ []))
    where
      in_own : Text → Bool
      in_own key = elim (lookup key parts) [ none ↦ false | some v ↦ allows k autofill key v ]

  unfoldable pub prep_crossproduct :
      List Text
      → Parsed k
      → (autofill : Dict (List Value)) → Dict Value
      → Result (List (List Value))
  prep_crossproduct keys grp autofill parts = map_ok (component grp autofill parts) keys

  -- The ids that the template makes of each choice
  unfoldable pub format_each : (app_name : Text) → List (List Value) → Result (List Text)
  unfolding crossproduct
  format_each app_name lists =
      map_ok (λ choice. format k (layout app_name) (zip_dict (template app_name) choice))
        (crossproduct lists)

  abbrev pub pairs : (app_name : Text) → List Text → List (Text × Text)
  pairs app_name [] = []
  pairs app_name (i ∷ ids) = (app_name, i) ∷ pairs app_name ids

  -- `yield (app_name, id)` for each id that is new
  abbrev pub yield_ids : (app_name : Text) → Result (List Text) → Generated (Text × Text)
  yield_ids app_name ids = when_ok ids (λ l. of_list (pairs app_name (unique_ids [] l)))

  -- `_generate_job_ids2`
  unfoldable pub generate_job_ids2 :
      Parsed k → Dict Value → (child : Text) → Generated (Text × Text)
  unfolding prep_crossproduct format_each unique_ids
  generate_job_ids2 grp parts child = yield_ids child (
      and_then (prep_crossproduct (template child) grp (autofill_or_empty k child) parts)
        (format_each child))

  -- A part of the parent's id speaks against the group.
  abbrev pub parts_fit : Parsed k → (child : Text) → Dict Value → Bool
  parts_fit grp child [] = true
  parts_fit grp child ((key, v) ∷ parts) =
      let autofill = autofill_or_empty k child in
      ((has_key k key grp.fields || mem_text key (template child))
        && (not (has_key k key grp.fields && not (allows k grp.fields key v))
            && not (has_key k key autofill && not (allows k autofill key v))))
      && parts_fit grp child parts

  -- Every component that the parent does not define has autofill values.
  abbrev pub autofilled : (child : Text) → Dict Value → List Text → Bool
  autofilled child parts [] = true
  autofilled child parts (key ∷ keys) =
      (has_key k key parts || has_key k key (autofill_or_empty k child))
      && autofilled child parts keys

  abbrev pub components_fit : Parsed k → (child : Text) → Dict Value → List Text → Bool
  components_fit grp child parts [] = true
  components_fit grp child parts (key ∷ keys) =
      (not (has_key k key grp.fields && part_contradicts key)
        && (has_key k key grp.fields
            || (has_key k key parts || has_key k key (autofill_or_empty k child))))
      && components_fit grp child parts keys
    where
      part_contradicts : Text → Bool
      part_contradicts key = elim (lookup key parts) [
        | none ↦ false
        | some v ↦ not (allows k grp.fields key v)
      ]

  -- `{k: v[0] for k, v in depends_on.items() if len(v) == 1}`, over the parts of the id
  abbrev pub with_single_values : Dict (List Value) → Dict Value → Dict Value
  with_single_values [] parts = parts
  with_single_values ((key, v ∷ []) ∷ d) parts = with_single_values d (insert key v parts)
  with_single_values (_ ∷ d) parts = with_single_values d parts

  abbrev pub hardcoded :
      (job_id : Text) → Parsed k → Dict Value → (child : Text) → List Text → Generated (Text × Text)
  hardcoded job_id grp parts child ids =
      if mem_text job_id ids
      then when_ok (format k (layout child) (with_single_values grp.fields parts))
          (λ i. yields (child, i) stops)
      else stops

  abbrev pub inferred : Parsed k → Dict Value → (child : Text) → Generated (Text × Text)
  inferred grp parts child =
      if parts_fit grp child parts
      then (if autofilled child parts (template child)
          then (if components_fit grp child parts (template child)
              then generate_job_ids2 grp parts child
              else stops)
          else fails dag_misconfigured)
      else stops

  abbrev pub by_job_ids :
      (job_id : Text)
      → (child : Text) → Parsed k
      → Dict Value
      → Option (List Text)
      → Generated (Text × Text)
  by_job_ids job_id child grp parts (some ids) = hardcoded job_id grp parts child ids
  by_job_ids job_id child grp parts none = inferred grp parts child

  abbrev pub from_parts :
      (job_id : Text) → (child : Text) → Parsed k → Dict Value → Generated (Text × Text)
  from_parts job_id child grp parts = by_job_ids job_id child grp parts grp.job_ids

  -- `_generate_job_ids`
  unfoldable pub generate_job_ids :
      (app_name job_id child : Text) → Parsed k → Generated (Text × Text)
  unfolding generate_job_ids2
  generate_job_ids app_name job_id child grp =
      if mem_text app_name grp.app_names
      then when_ok (parse_job_id config app_name job_id) (from_parts job_id child grp)
      else stops

  -- `depends_on[group_name]`, or the one group that has no name
  abbrev group_of : (group_name : Text) → DependsOn (Choice Value) → Result (Groups (Choice Value))
  group_of group_name (unnamed grp) =
      if text_eq group_name k.default_name then ok (single grp) else raised key_error
  group_of group_name (by_name d) =
      if text_eq group_name k.default_name then raised key_error else item k group_name d

  abbrev or_missing :
      Option (DependsOn (Choice Value)) → (group_name : Text) → Result (Groups (Choice Value))
  or_missing none group_name = raised key_error
  or_missing (some deps) group_name = group_of group_name deps

  abbrev pub child_groups : (child group_name : Text) → Result (List (Parsed k))
  child_groups child group_name =
      and_then (or_missing (k.depends_on child) group_name) (convert_dep_grp_to_parsed_list k)

  unfoldable pub child_ids : (app_name job_id : Text) → Text × Text → Generated (Text × Text)
  unfolding generate_job_ids
  child_ids app_name job_id (child, group_name) =
      when_ok (child_groups child group_name)
        λ grps. each_of grps (generate_job_ids app_name job_id child)

  -- `get_children`; `successors` are the edges of the dag that leave the app, each with the name of
  -- a dependency group.
  unfoldable pub get_children :
      (successors : Text → List (Text × Text)) → (app_name job_id : Text) → Generated (Text × Text)
  unfolding child_ids
  get_children successors app_name job_id =
      each_of (successors app_name) (child_ids app_name job_id)

  abbrev add_missing : Dict Value → Dict (List Value) → Dict (List Value)
  add_missing [] d = d
  add_missing ((key, v) ∷ parts) d =
      add_missing parts (if has_key k key d then d else insert key (v ∷ []) d)

  -- Only app_name is defined, and it lists one app.
  abbrev is_bare : Parsed k → Bool
  is_bare grp =
      (length grp.fields == 0) && (not (is_some grp.job_ids) && (length grp.app_names == 1))

  -- `_inplace_modify_depends_on`, given the parts of the child's id
  unfoldable pub inplace_modify_depends_on :
      Parsed k → Dict Value → (parent : Text) → Result (Parsed k)
  inplace_modify_depends_on grp parts parent =
      if is_bare grp
      then and_then (format k (layout parent) parts)
          (λ i. ok (record grp { job_ids = some (i ∷ []) }))
      else ok (record grp { fields = add_missing parts grp.fields })

  -- `_iter_job_ids`
  unfoldable pub iter_job_ids : (parent : Text) → List Text → Generated (Text × Text)
  iter_job_ids parent [] = stops
  iter_job_ids parent (jid ∷ ids) =
      when_ok (parse_job_id config parent jid) (λ _. yields (parent, jid) (iter_job_ids parent ids))

  abbrev parent_ids : (parent : Text) → Parsed k → Generated (Text × Text)
  parent_ids parent grp = elim grp.job_ids [
    | some ids ↦ iter_job_ids parent ids
    | none ↦
        yield_ids parent
          (and_then (map_ok (λ key. item k key grp.fields) (template parent)) (format_each parent))
  ]

  -- `_get_parent_job_ids`: what is added to the group for one parent stays for the next.
  unfoldable pub get_parent_job_ids :
      Parsed k → Dict Value → (parents : List Text) → Generated (Text × Text)
  unfolding inplace_modify_depends_on iter_job_ids
  get_parent_job_ids grp parts [] = stops
  get_parent_job_ids grp parts (parent ∷ parents) =
      when_ok (inplace_modify_depends_on grp parts parent)
        λ grp'. followed_by (parent_ids parent grp') (get_parent_job_ids grp' parts parents)

  abbrev all_compatible : List (Parsed k) → Dict Value → (child : Text) → Bool
  all_compatible [] parts child = true
  all_compatible (grp ∷ grps) parts child =
      dep_group_and_job_id_compatible k grp parts child && all_compatible grps parts child

  abbrev group_parents :
      (app_name : Text) → Dict Value → Text × Groups (Choice Value) → Generated (Text × Text)
  group_parents app_name parts (_, grp) = when_ok (convert_dep_grp_to_parsed_list k grp) λ grps.
      if all_compatible grps parts app_name
      then each_of grps (λ g. get_parent_job_ids g parts g.app_names)
      else stops

  -- A part named dependency_group_name picks a group.
  abbrev add_group_name : Dict Value → List Text → List Text
  add_group_name parts filter_deps = elim (lookup (txt "dependency_group_name") parts) [
    | none ↦ filter_deps
    | some v ↦ show v ∷ filter_deps
  ]

  -- `get_parents` of a job id
  unfoldable pub get_parents :
      (app_name job_id : Text) → (filter_deps : List Text) → Generated (Text × Text)
  unfolding get_parent_job_ids
  get_parents app_name job_id filter_deps = when_ok (parse_job_id config app_name job_id) λ parts.
      when_ok (get_grps k app_name (add_group_name parts filter_deps))
        λ grps. each_of grps (group_parents app_name parts)
