-- ===== src/Dag/Validation/Groups.antt =====
-- stolos/dag_tools/build.py: the validation of the dependency groups of one task.
use stolos.Prelude.{
  Bool, true, false, not, ◌&&◌, ◌||◌, Option, none, some, List, [], ◌∷◌, Text, Dict, lookup, txt,
  text_eq, mem_text, is_some, length, ◌==◌, if◌then◌else◌,
}
use stolos.Jobs.Actions.{Result, ok, raised, and_then, dag_misconfigured, key_error, type_error}
use stolos.Dag.Metadata.{
  Entry, sequence, text, scalar, GroupData, mapping, mappings, neither, Metadata, Values, mem_value,
  template_of, elements, autofill_keys,
}
use stolos.Dag.Validation.{raise_if, each, keys, difference, nonempty}

module _ (c : Values) (tasks : Dict (Metadata c.Value)) where
  open c use {Value, same, same_bool, truth, of_text, as_text, validation}

  abbrev pub or_key_error : {A : Type 0} → Option A → Result A
  or_key_error none = raised key_error
  or_key_error (some a) = ok a

  -- `len(set(v)) != len(v)`
  abbrev pub has_duplicates : List Value → Bool
  has_duplicates [] = false
  has_duplicates (v ∷ vs) = mem_value c v vs || has_duplicates vs

  abbrev pub is_all : Text → Bool
  is_all t = text_eq t (txt "all")

  -- the loop over `dep_grp.items()` of `_validate_dep_grp_metadata`
  unfoldable pub check_entry : Entry Value → Result Unit
  check_entry (sequence vs) = raise_if (has_duplicates vs)
  check_entry (text t) = raise_if (not (is_all t))
  check_entry (scalar v) = raised dag_misconfigured

  -- the loop over `dep_grp['app_name']` of `_validate_dep_grp_metadata`
  unfoldable pub check_known_parent :
      Metadata Value → Dict (Entry Value) → Metadata Value → Result Unit
  check_known_parent meta dep_grp parent =
      let child_template = template_of c meta in
      let parent_template = template_of c parent in
      and_then
        (raise_if (length dep_grp == 1 && nonempty (difference parent_template child_template)))
        λ _. and_then (autofill_keys c meta.autofill_values) λ autofill.
          let required = difference (difference child_template parent_template) autofill in
          raise_if (nonempty (difference required (keys dep_grp)))

  -- `parent_app_name not in tasks_conf`: the keys of the configuration are texts.
  abbrev pub task_at : Option Text → Option (Metadata Value)
  task_at none = none
  task_at (some p) = lookup p tasks

  unfoldable pub known_task : Value → Option (Metadata Value)
  known_task v = task_at (as_text v)

  unfoldable pub check_found :
      Metadata Value → Dict (Entry Value) → Option (Metadata Value) → Result Unit
  unfolding check_known_parent
  check_found meta dep_grp none = raised dag_misconfigured
  check_found meta dep_grp (some parent) = check_known_parent meta dep_grp parent

  unfoldable pub check_parent_app : Metadata Value → Dict (Entry Value) → Value → Result Unit
  unfolding check_found known_task
  check_parent_app meta dep_grp v = check_found meta dep_grp (known_task v)

  -- `dep_grp['app_name']`, iterated over
  unfoldable pub parents_of : Dict (Entry Value) → Result (List Value)
  parents_of dep_grp = and_then (or_key_error (lookup (txt "app_name") dep_grp)) (elements c)

  -- `_validate_dep_grp_metadata`
  unfoldable pub validate_metadata : Metadata Value → Dict (Entry Value) → Result Unit
  unfolding parents_of check_parent_app check_entry
  validate_metadata meta dep_grp = and_then (parents_of dep_grp) λ parents.
      and_then (each (check_parent_app meta dep_grp) parents)
        λ _. each (λ e. check_entry e.1) dep_grp

  -- A validation function has to return its argument.
  unfoldable pub check_value : (Value → Result Value) → Value → Result Unit
  check_value func v = elim (func v) [
    | ok res ↦ raise_if (not (same v res))
    | raised e ↦ raised dag_misconfigured
  ]

  -- `k not in tasks_conf[parent].get('autofill_values', {})`
  unfoldable pub check_autofilled : Text → Value → Result Unit
  unfolding known_task
  check_autofilled key parent = and_then (or_key_error (known_task parent)) λ meta.
      and_then (autofill_keys c meta.autofill_values)
        λ autofill. raise_if (not (mem_text key autofill))

  unfoldable pub check_choice :
      Dict (Entry Value) → Text → (Value → Result Value) → Entry Value → Result Unit
  unfolding check_value check_autofilled parents_of
  check_choice dep_grp key func (text t) =
      if is_all t
      then and_then (parents_of dep_grp) (each (check_autofilled key))
      else and_then (elements c (text t)) (each (check_value func))
  check_choice dep_grp key func v = and_then (elements c v) (each (check_value func))

  abbrev pub is_reserved : Text → Bool
  is_reserved key = text_eq key (txt "app_name") || text_eq key (txt "job_id")

  unfoldable pub check_component : Dict (Entry Value) → Text × Entry Value → Result Unit
  unfolding check_choice
  check_component dep_grp (key, v) = if is_reserved key then ok tt else elim (validation key) [
    | none ↦ raised dag_misconfigured
    | some func ↦ check_choice dep_grp key func v
  ]

  -- `_validate_dep_grp_with_job_id_validations`
  unfoldable pub validate_components : Dict (Entry Value) → Result Unit
  unfolding check_component
  validate_components dep_grp = each (check_component dep_grp) dep_grp

  abbrev pub is_sequence : Option (Entry Value) → Bool
  is_sequence (some (sequence vs)) = true
  is_sequence _ = false

  -- `_validate_dependency_groups_part2`
  unfoldable pub validate_group : Metadata Value → Dict (Entry Value) → Result Unit
  unfolding validate_metadata validate_components
  validate_group meta dep_grp =
      and_then (raise_if (not (is_sequence (lookup (txt "app_name") dep_grp))))
        λ _. and_then (validate_metadata meta dep_grp) λ _. validate_components dep_grp

  -- `list(other) == list(self)`
  abbrev pub same_values : (vs ws : List Value) → Bool
  same_values [] [] = true
  same_values (v ∷ vs) (w ∷ ws) = same v w && same_values vs ws
  same_values _ _ = false

  -- `==` on what `get` returns
  abbrev pub same_entry : (x y : Option (Entry Value)) → Bool
  same_entry none none = true
  same_entry (some (sequence vs)) (some (sequence ws)) = same_values vs ws
  same_entry (some (text t)) (some (text u)) = text_eq t u
  same_entry (some (scalar v)) (some (scalar w)) = same v w
  same_entry _ _ = false

  -- The accumulator of `reduce`: the first value, and then what a comparison returned.
  pub data Folded : Type 0 where
    first : Option (Entry Value) → Folded
    compared : Bool → Folded

  abbrev pub compare_next : Folded → Option (Entry Value) → Bool
  compare_next (first x) y = same_entry x y
  compare_next (compared b) (some (scalar v)) = same_bool b v
  compare_next (compared b) _ = false

  unfoldable pub fold_same : Folded → List (Option (Entry Value)) → Folded
  fold_same acc [] = acc
  fold_same acc (x ∷ xs) = fold_same (compared (compare_next acc x)) xs

  abbrev pub is_true : Folded → Bool
  is_true (first none) = false
  is_true (first (some (sequence vs))) = nonempty vs
  is_true (first (some (text t))) = nonempty t
  is_true (first (some (scalar v))) = truth v
  is_true (compared b) = b

  -- `reduce(lambda x, y: x == y, values)`, and its truth
  unfoldable pub reduce_same : List (Option (Entry Value)) → Result Bool
  unfolding fold_same
  reduce_same [] = raised type_error
  reduce_same (x ∷ xs) = ok (is_true (fold_same (first x) xs))

  -- the `values` at an identifier, of the groups without job_id
  unfoldable pub values_at : Text → List (Dict (Entry Value)) → List (Option (Entry Value))
  values_at identifier [] = []
  values_at identifier (dep_grp ∷ grps) =
      let rest = values_at identifier grps in
      if is_some (lookup (txt "job_id") dep_grp) then rest else lookup identifier dep_grp ∷ rest

  unfoldable pub check_identifier : List (Dict (Entry Value)) → Text → Result Unit
  unfolding values_at reduce_same
  check_identifier grps identifier =
      and_then (reduce_same (values_at identifier grps)) λ consistent. raise_if (not consistent)

  unfoldable pub validate_named : Metadata Value → GroupData Value → Result Unit
  unfolding validate_group check_identifier
  validate_named meta (mapping dep_grp) = validate_group meta dep_grp
  validate_named meta (mappings grps) =
      and_then (each (validate_group meta) grps)
        λ _. each (check_identifier grps) (template_of c meta)
  validate_named meta neither = raised type_error

  abbrev pub check_named : Metadata Value → Text × GroupData Value → Result Unit
  unfolding validate_named
  check_named meta (dep_name, dep_grp) =
      and_then (raise_if (is_some (lookup dep_name tasks))) λ _. validate_named meta dep_grp

  -- `_validate_dependency_groups`
  unfoldable pub validate_dependency_groups : Metadata Value → Dict (GroupData Value) → Result Unit
  unfolding validate_named
  validate_dependency_groups meta groups = each (check_named meta) groups
