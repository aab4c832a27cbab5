-- ===== src/Dag/Groups/Values.antt =====
-- What `parse_values` of stolos/dag_tools/traversal.py makes of the value "all".
use stolos.Prelude.{
  ◌≡◌, refl, ◌∙◌, false, ◌&&◌, some, List, [], ◌∷◌, arith, Text, Dict, lookup, insert,
  lookup-insert, text_eq_iff, mem_text,
}
use stolos.Jobs.Actions.{Result, ok, OnOk, OnOk-at, OnOk-mono, OnOk-and_then, and_then}
use stolos.Dag.Tasks.{Tasks, Choice, all_values, Group, item}
use stolos.Dag.Groups.{
  Parsed, all_keys, in_template, list_of_choice, list_each, fill_keys, is_empty, or_misconfigured,
  for_parent, parse_for,
}

module _ (k : Tasks) where
  open k use {Value, template, autofill_values}

  mem-in_template :
      (parent key : Text) (keys : List Text)
      → mem_text key (in_template k parent keys)
        ≡ (mem_text key keys && mem_text key (template parent))
  mem-in_template parent key [] = refl
  mem-in_template parent key (j ∷ keys) =
      ground (arith, mem-in_template parent key keys, text_eq_iff key j)

  lookup-list_each :
      (key : Text) (d : Dict (Choice Value))
      → lookup key d ≡ some all_values
      → lookup key (list_each k d) ≡ some (list_of_choice k all_values)
  lookup-list_each key [] e = cc
  lookup-list_each key ((j, v) ∷ d) e = ground (arith, lookup-list_each key d)

  -- Only the keys that are filled change.
  lookup-fill_keys :
      (key : Text) (autofill : Dict (List Value)) (keys : List Text) (d : Dict (List Value))
      → mem_text key keys ≡ false
      → OnOk (λ d'. lookup key d' ≡ lookup key d) (fill_keys k autofill keys d)
  unfolding fill_keys
  lookup-fill_keys key autofill [] d other = refl
  lookup-fill_keys key autofill (j ∷ keys) d other =
      let Q : Dict (List Value) → Type 0 = λ d'. lookup key d' ≡ lookup key d in
      OnOk-and_then Q (item k j autofill) (λ vs. fill_keys k autofill keys (insert j vs d))
        λ vs _.
          let apart : lookup key (insert j vs d) ≡ lookup key d =
            lookup-insert j key vs d
            ∙ ground (arith, other, text_eq_iff j key, text_eq_iff key j) in
          OnOk-mono (λ d'. lookup key d' ≡ lookup key (insert j vs d)) Q
            (fill_keys k autofill keys (insert j vs d)) (λ d' e. e ∙ apart)
            (lookup-fill_keys key autofill keys (insert j vs d) (ground arith))

  -- A group with the value "all" at two keys, where the template of a parent has only the other one:
  -- where the copy of the group for this parent is made, the key it does not have holds the letters
  -- "a", "l" and "l" as its values.
  pub parse_for_letters :
      (grp : Group (Choice Value)) (parent key : Text) (g : Parsed k)
      → lookup key grp.fields ≡ some all_values
      → mem_text key (template parent) ≡ false
      → is_empty k (in_template k parent (all_keys k grp.fields)) ≡ false
      → parse_for k grp parent ≡ ok g
      → lookup key g.fields ≡ some (list_of_choice k all_values)
  unfolding parse_for
  parse_for_letters grp parent key g all foreign some_relevant made =
      let P : Parsed k → Type 0 = λ g'. lookup key g'.fields ≡ some (list_of_choice k all_values) in
      let d = list_each k grp.fields in
      let relevant = in_template k parent (all_keys k grp.fields) in
      let other : mem_text key relevant ≡ false =
        mem-in_template parent key (all_keys k grp.fields) ∙ ground (arith, foreign) in
      let copy : Dict (List Value) → Result (Parsed k) = λ d'. ok (for_parent k parent grp d') in
      let fill : Dict (List Value) → Result (Parsed k) =
        λ autofill. and_then (fill_keys k autofill relevant d) copy in
      let found : OnOk P (parse_for k grp parent) = rw some_relevant (
        OnOk-and_then P (or_misconfigured k (autofill_values parent)) fill λ autofill _.
          OnOk-and_then P (fill_keys k autofill relevant d) copy λ d' e.
            OnOk-at (λ d'. lookup key d' ≡ lookup key d) e
              (lookup-fill_keys key autofill relevant d other)
            ∙ lookup-list_each key grp.fields all) in
      OnOk-at P made found
