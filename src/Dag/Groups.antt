-- ===== src/Dag/Groups.antt =====
-- stolos/dag_tools/traversal.py: the dependency groups of an app, with the value "all" replaced, and
-- whether a group can have led to a job id.
pub mod Values
mod Examples
use stolos.Prelude.{
  ℕ, ◌≡◌, Bool, true, false, not, ◌&&◌, ◌||◌, Option, none, some, List, [], ◌∷◌, ◌++◌, Text, Dict,
  lookup, insert, erase, txt, text_eq, mem_text, is_some, if◌then◌else◌,
}
use stolos.Jobs.Actions.{Result, ok, raised, and_then, map_ok, key_error, dag_misconfigured}
use stolos.Dag.Tasks.{
  Tasks, Choice, all_values, values, Group, Groups, single, several, DependsOn, unnamed, by_name,
  mem_value, item, autofill_or_empty,
}

abbrev concat : {A : Type 0} → List (List A) → List A
concat [] = []
concat (l ∷ ls) = l ++ concat ls

module _ (k : Tasks) where
  open k use {Value, template, autofill_values, depends_on}

  abbrev pub Parsed : Type 0
  Parsed = Group (List Value)

  -- `[k for k, v in dep_group.items() if v == "all"]`
  abbrev pub all_keys : Dict (Choice Value) → List Text
  all_keys [] = []
  all_keys ((key, all_values) ∷ d) = key ∷ all_keys d
  all_keys ((key, values vs) ∷ d) = all_keys d

  abbrev pub in_template : (app_name : Text) → List Text → List Text
  in_template app_name [] = []
  in_template app_name (key ∷ keys) =
      let rest = in_template app_name keys in
      if mem_text key (template app_name) then key ∷ rest else rest

  -- `list(v)`: of the text "all", its letters
  abbrev pub list_of_choice : Choice Value → List Value
  list_of_choice all_values = k.raw (txt "a") ∷ k.raw (txt "l") ∷ k.raw (txt "l") ∷ []
  list_of_choice (values vs) = vs

  abbrev pub list_each : Dict (Choice Value) → Dict (List Value)
  list_each [] = []
  list_each ((key, v) ∷ d) = (key, list_of_choice v) ∷ list_each d

  abbrev pub drop_keys : List Text → Dict (List Value) → Dict (List Value)
  drop_keys [] d = d
  drop_keys (key ∷ keys) d = drop_keys keys (erase key d)

  -- The keys of this parent get its autofill values.
  unfoldable pub fill_keys :
      Dict (List Value) → List Text → Dict (List Value) → Result (Dict (List Value))
  fill_keys autofill [] d = ok d
  fill_keys autofill (key ∷ keys) d =
      and_then (item k key autofill) (λ vs. fill_keys autofill keys (insert key vs d))

  abbrev pub or_misconfigured : {A : Type 0} → Option A → Result A
  or_misconfigured none = raised dag_misconfigured
  or_misconfigured (some a) = ok a

  abbrev pub for_parent : (app_name : Text) → Group (Choice Value) → Dict (List Value) → Parsed
  for_parent parent grp d = record { app_names = parent ∷ []; job_ids = grp.job_ids; fields = d }

  abbrev pub is_empty : {A : Type 0} → List A → Bool
  is_empty [] = true
  is_empty (a ∷ l) = false

  -- The copy of the group for one of its parents
  unfoldable pub parse_for : Group (Choice Value) → (parent : Text) → Result Parsed
  unfolding fill_keys
  parse_for grp parent =
      let d = list_each grp.fields in
      let relevant = in_template parent (all_keys grp.fields) in
      if is_empty relevant
      then ok (for_parent parent grp (drop_keys (all_keys grp.fields) d))
      else and_then (or_misconfigured (autofill_values parent))
          λ autofill. and_then (fill_keys autofill relevant d) λ d'. ok (for_parent parent grp d')

  unfoldable pub parse_values : Group (Choice Value) → Result (List Parsed)
  unfolding parse_for
  parse_values grp =
      if is_empty (all_keys grp.fields)
      then ok (
          record { app_names = grp.app_names; job_ids = grp.job_ids; fields = list_each grp.fields }
          ∷ [])
      else map_ok (parse_for grp) grp.app_names

  unfoldable pub convert_dep_grp_to_parsed_list : Groups (Choice Value) → Result (List Parsed)
  unfolding parse_values
  convert_dep_grp_to_parsed_list (single grp) = parse_values grp
  convert_dep_grp_to_parsed_list (several grps) =
      and_then (map_ok parse_values grps) (λ ls. ok (concat ls))

  abbrev pub has_key : {A : Type 0} → Text → Dict A → Bool
  has_key key d = is_some (lookup key d)

  -- `v in d[key]`, for a key that may be missing
  abbrev pub allows : Dict (List Value) → Text → Value → Bool
  allows d key v = elim (lookup key d) [ none ↦ false | some vs ↦ mem_value k v vs ]

  -- Each identifier of the parent is defined somewhere, or the group lists job ids.
  abbrev covers : Parsed → Dict Value → (parent : Text) → List Text → Bool
  covers grp parts parent [] = true
  covers grp parts parent (key ∷ keys) =
      (has_key key parts
        || (has_key key grp.fields
            || (has_key key (autofill_or_empty k parent) || is_some grp.job_ids)))
      && covers grp parts parent keys

  -- No part of the child's id contradicts the group or the child's autofill values.
  abbrev agrees : Parsed → (autofill : Dict (List Value)) → Dict Value → Bool
  agrees grp autofill [] = true
  agrees grp autofill ((key, v) ∷ parts) =
      (not (has_key key grp.fields && not (allows grp.fields key v))
        && not (
            has_key key autofill && (not (allows autofill key v) && not (allows grp.fields key v))))
      && agrees grp autofill parts

  abbrev compatible_with : Parsed → Dict Value → (child : Text) → List Text → Bool
  compatible_with grp parts child [] = true
  compatible_with grp parts child (parent ∷ parents) =
      (covers grp parts parent (template parent) && agrees grp (autofill_or_empty k child) parts)
      && compatible_with grp parts child parents

  unfoldable pub dep_group_and_job_id_compatible : Parsed → Dict Value → (child : Text) → Bool
  dep_group_and_job_id_compatible grp parts child = compatible_with grp parts child grp.app_names

  -- `_get_parents_validate_group_names`
  abbrev are_names : List Text → (filter_deps : List Text) → Bool
  are_names names [] = true
  are_names names (f ∷ filter_deps) = mem_text f names && are_names names filter_deps

  abbrev keys_of : {A : Type 0} → Dict A → List Text
  keys_of [] = []
  keys_of ((key, _) ∷ d) = key ∷ keys_of d

  abbrev pub only : {A : Type 0} → List Text → Dict A → Dict A
  only filter_deps [] = []
  only filter_deps ((key, a) ∷ d) =
      let rest = only filter_deps d in if mem_text key filter_deps then (key, a) ∷ rest else rest

  abbrev groups_in :
      DependsOn (Choice Value) → (filter_deps : List Text) → Result (Dict (Groups (Choice Value)))
  groups_in (unnamed grp) filter_deps =
      if are_names (k.default_name ∷ []) filter_deps
      then ok ((k.default_name, single grp) ∷ [])
      else raised dag_misconfigured
  groups_in (by_name d) filter_deps =
      if is_empty filter_deps
      then ok d
      else if are_names (keys_of d) filter_deps
      then ok (only filter_deps d)
      else raised dag_misconfigured

  -- `_get_grps`
  unfoldable pub get_grps :
      (app_name : Text) → (filter_deps : List Text) → Result (Dict (Groups (Choice Value)))
  get_grps app_name filter_deps = elim (depends_on app_name) [
    | none ↦ ok []
    | some deps ↦ groups_in deps filter_deps
  ]
