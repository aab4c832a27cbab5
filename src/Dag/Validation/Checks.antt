-- ===== src/Dag/Validation/Checks.antt =====
-- stolos/dag_tools/build.py: the validation of tasks and of the whole dag.
use stolos.Prelude.{
  Bool, true, not, ◌&&◌, Option, none, some, List, [], ◌∷◌, Text, Dict, lookup, txt, text_eq,
  mem_text, is_some, split, if◌then◌else◌,
}
use stolos.Jobs.Actions.{
  Result, ok, raised, and_then, dag_misconfigured, attribute_error, assertion_error,
}
use stolos.Dag.MultiGraph.{MultiGraph}
use stolos.Dag.Metadata.{
  Entry, sequence, text, scalar, Dependencies, on_parents, by_name, not_mapping, Autofill, fields,
  items, another, Metadata, Values, isdigit, template_of,
}
use stolos.Dag.Validation.{raise_if, each, keys, difference, nonempty}
use stolos.Dag.Validation.Groups.{validate_metadata, validate_dependency_groups}

module _ (c : Values) where
  -- `all(x.isdigit() for x in texts)`
  abbrev pub all_are_digits : List Text → Bool
  all_are_digits [] = true
  all_are_digits (t ∷ ts) = isdigit c t && all_are_digits ts

module _ (c : Values) (tasks : Dict (Metadata c.Value)) where
  open c use {Value, validation}

  -- `validate_depends_on`
  unfoldable pub validate_depends_on :
      (M : MultiGraph) → M.Dg → Text → Metadata Value → Option (Dependencies Value) → Result Unit
  unfolding validate_metadata validate_dependency_groups
  validate_depends_on M dg app_name meta none = ok tt
  validate_depends_on M dg app_name meta (some (not_mapping truth)) = raised dag_misconfigured
  validate_depends_on M dg app_name meta (some (on_parents dep_grp)) =
      validate_metadata c tasks meta dep_grp
  validate_depends_on M dg app_name meta (some (by_name groups)) =
      and_then (validate_dependency_groups c tasks meta groups) λ _.
        each (λ parent. raise_if (not (is_some (lookup parent tasks)))) (M.predecessors app_name dg)

  abbrev pub check_allowed : Option (Value → Result Value) → List Value → Result Unit
  check_allowed none vs = ok tt
  check_allowed (some func) vs =
      each (λ v. elim (func v) [ ok res ↦ ok tt | raised e ↦ raised dag_misconfigured ]) vs

  unfoldable pub check_condition : Metadata Value → Text × Entry Value → Result Unit
  check_condition meta (key, sequence vs) =
      if text_eq key (txt "_func")
      then ok tt
      else and_then (raise_if (not (mem_text key (template_of c meta))))
          λ _. check_allowed (validation key) vs
  check_condition meta (key, v) = raise_if (not (text_eq key (txt "_func")))

  -- `validate_if_or`
  unfoldable pub validate_if_or : Metadata Value → Option (Dict (Entry Value)) → Result Unit
  unfolding check_condition
  validate_if_or meta none = ok tt
  validate_if_or meta (some conditions) = each (check_condition meta) conditions

  unfoldable pub check_autofill : Entry Value → Result Unit
  unfolding split
  check_autofill (text t) = raise_if (not (all_are_digits c (split (txt ":") 2 t)))
  check_autofill (sequence vs) = ok tt
  check_autofill (scalar v) = raised dag_misconfigured

  -- `validate_autofill_values`: what is not a mapping has no `items`, which is an AttributeError.
  unfoldable pub validate_autofill_values : Metadata Value → Option (Autofill Value) → Result Unit
  unfolding check_autofill
  validate_autofill_values meta none = ok tt
  validate_autofill_values meta (some (fields d)) =
      and_then (each (λ e. check_autofill e.1) d)
        λ _. raise_if (nonempty (difference (keys d) (template_of c meta)))
  validate_autofill_values meta (some (items vs)) =
      and_then (raise_if (nonempty vs)) λ _. raised attribute_error
  validate_autofill_values meta (some (another truth)) =
      and_then (raise_if truth) λ _. raised attribute_error

  unfoldable pub validate_task : (M : MultiGraph) → M.Dg → Text × Metadata Value → Result Unit
  unfolding validate_depends_on validate_if_or validate_autofill_values
  validate_task M dg (app_name, meta) =
      and_then (validate_depends_on M dg app_name meta meta.depends_on) λ _.
        and_then (validate_if_or meta meta.valid_if_or)
          λ _. validate_autofill_values meta meta.autofill_values

  -- `validate_dag`
  unfoldable pub validate_dag : (M : MultiGraph) → M.Dg → Result Unit
  unfolding validate_task
  validate_dag M dg =
      if M.is_acyclic dg then each (validate_task M dg) tasks else raised assertion_error
