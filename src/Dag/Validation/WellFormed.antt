-- ===== src/Dag/Validation/WellFormed.antt =====
-- What `_validate_dep_grp_metadata` of stolos/dag_tools/build.py accepts.
use mathlib.Core.Logic.{◌↔◌}
use stolos.Prelude.{
  ◌≡◌, refl, true, false, not, ◌&&◌, Option, none, some, List, arith, Text, Dict, txt, text_eq_iff,
  mem_text, length, ◌==◌, inl, inr, Bool-cases,
}
use stolos.Jobs.Actions.{ok}
use stolos.Dag.Metadata.{
  Entry, sequence, text, scalar, Metadata, Values, template_of, autofill_keys,
}
use stolos.Dag.Validation.{raise_if, keys, difference, nonempty}
use stolos.Dag.Validation.Groups.{
  has_duplicates, is_all, check_entry, check_found, check_parent_app, known_task, parents_of,
  validate_metadata,
}
use stolos.Dag.Validation.Outcomes.{
  All, All-map, and_then-eq-ok, then-ok, raise_if-ok, each-ok, mem_text-difference,
  difference_empty,
}

module _ (c : Values) (tasks : Dict (Metadata c.Value)) (meta : Metadata c.Value) where
  open c use {Value}

  abbrev child_template : List Text
  child_template = template_of c meta

  -- A list without duplicates, or the word "all".
  abbrev pub IsChoice : Entry Value → Type 0
  IsChoice (sequence vs) = has_duplicates c tasks vs ≡ false
  IsChoice (text t) = t ≡ txt "all"
  IsChoice (scalar v) = ⊥

  -- A group with no other key needs a child whose template has the parent's identifiers.
  abbrev pub IsInferable : Dict (Entry Value) → Metadata Value → Type 0
  IsInferable dep_grp parent =
      (length dep_grp == 1) ≡ true
      → (k : Text) → mem_text k (template_of c parent) ≡ true
      → mem_text k child_template ≡ true

  -- An identifier of the child that the parent has not is autofilled, or a key of the group.
  abbrev pub IsCovering : Dict (Entry Value) → Metadata Value → List Text → Type 0
  IsCovering dep_grp parent autofill =
      (k : Text)
      → mem_text k child_template ≡ true
      → mem_text k (template_of c parent) ≡ false
      → mem_text k autofill ≡ false
      → mem_text k (keys dep_grp) ≡ true

  -- A value that names a task for which the group is enough.
  pub record IsParent (dep_grp : Dict (Entry Value)) (v : Value) : Type 0 where
    pub parent : Metadata Value
    pub is_known : known_task c tasks v ≡ some parent
    pub inferable : IsInferable dep_grp parent
    pub autofill : List Text
    pub autofilled : autofill_keys c meta.autofill_values ≡ ok autofill
    pub covering : IsCovering dep_grp parent autofill

  check_entry_iff : (x : Entry Value) → (check_entry c tasks x ≡ ok tt) ↔ IsChoice x
  unfolding check_entry
  check_entry_iff (sequence vs) = raise_if-ok (has_duplicates c tasks vs)
  check_entry_iff (text t) =
      let test = raise_if-ok (not (is_all c tasks t)) in
      (
        λ h. ground (arith, test.0 h, text_eq_iff t (txt "all")),
        λ h. test.1 (ground (arith, text_eq_iff t (txt "all"))),
      )
  check_entry_iff (scalar v) = (λ h. cc, λ h. absurd h)

  module _ (dep_grp : Dict (Entry Value)) where
    IsInferable-iff :
        (parent : Metadata Value)
        → (raise_if
              (length dep_grp == 1 && nonempty (difference (template_of c parent) child_template))
            ≡ ok tt)
          ↔ IsInferable dep_grp parent
    IsInferable-iff parent =
        let bare = length dep_grp == 1 in
        let extra = nonempty (difference (template_of c parent) child_template) in
        let test = raise_if-ok (bare && extra) in
        let within = difference_empty (template_of c parent) child_template in
        (
          λ h only. within.0 (ground (arith, test.0 h, only)),
          λ inferable. test.1 (elim (Bool-cases bare) [
            | inl only ↦ let e : extra ≡ false = within.1 (inferable only) in ground (arith, e)
            | inr more ↦ ground (arith, more)
          ]),
        )

    IsCovering-iff :
        (parent : Metadata Value) (autofill : List Text)
        → (raise_if (
              nonempty (
                difference
                  (difference (difference child_template (template_of c parent)) autofill)
                  (keys dep_grp)))
            ≡ ok tt)
          ↔ IsCovering dep_grp parent autofill
    IsCovering-iff parent autofill =
        let fresh = difference child_template (template_of c parent) in
        let required = difference fresh autofill in
        let test = raise_if-ok (nonempty (difference required (keys dep_grp))) in
        let within = difference_empty required (keys dep_grp) in
        let own : (k : Text)
            → mem_text k fresh
              ≡ (mem_text k child_template && not (mem_text k (template_of c parent))) =
          λ k. mem_text-difference k child_template (template_of c parent) in
        (
          λ h k a b d.
              within.0 (test.0 h) k
                (ground (arith, mem_text-difference k fresh autofill, own k, a, b, d)),
          λ covering. test.1 (
              within.1 λ k m.
                covering k (ground (arith, m, mem_text-difference k fresh autofill, own k))
                  (ground (arith, m, mem_text-difference k fresh autofill, own k))
                  (ground (arith, m, mem_text-difference k fresh autofill, own k))),
        )

    module _ (v : Value) where
      found-IsParent :
          (p : Option (Metadata Value))
          → known_task c tasks v ≡ p
          → check_found c tasks meta dep_grp p ≡ ok tt
          → IsParent dep_grp v
      unfolding check_found
      found-IsParent none e h = cc
      found-IsParent (some parent) e h =
          let (a, first, rest) = and_then-eq-ok _ _ h in
          let (autofill, autofilled, last) = and_then-eq-ok _ _ rest in
          record {
            parent = parent;
            is_known = e;
            inferable = (IsInferable-iff parent).0 first;
            autofill = autofill;
            autofilled = autofilled;
            covering = (IsCovering-iff parent autofill).0 last;
          }

      IsParent-found :
          IsParent dep_grp v → check_found c tasks meta dep_grp (known_task c tasks v) ≡ ok tt
      unfolding check_found
      IsParent-found p =
          rw (p.is_known, (IsInferable-iff p.parent).1 p.inferable, p.autofilled)
            ((IsCovering-iff p.parent p.autofill).1 p.covering)

      IsParent-iff : (check_parent_app c tasks meta dep_grp v ≡ ok tt) ↔ IsParent dep_grp v
      unfolding check_parent_app
      IsParent-iff = (found-IsParent (known_task c tasks v) refl, IsParent-found)

  -- `_validate_dep_grp_metadata` accepts a group exactly if the value of `app_name` can be iterated
  -- over, each of its elements names a task, this task's identifiers are the child's where the group
  -- has no other key, each identifier that only the child has is autofilled or a key of the group, and
  -- each value of the group is a list without duplicates or the word "all".
  pub validate_metadata_iff :
      (dep_grp : Dict (Entry Value))
      → (validate_metadata c tasks meta dep_grp ≡ ok tt) ↔ (
          (parents : List Value) × (parents_of c tasks dep_grp ≡ ok parents)
          × All (IsParent dep_grp) parents
          × All (λ e. IsChoice e.1) dep_grp)
  unfolding validate_metadata
  validate_metadata_iff dep_grp =
      let named =
        λ (parents : List Value). each-ok (check_parent_app c tasks meta dep_grp) parents in
      let listed = each-ok (λ (e : Text × Entry Value). check_entry c tasks e.1) dep_grp in
      let entry = λ (e : Text × Entry Value). check_entry_iff e.1 in
      (
        λ h.
            let (parents, found, rest) = and_then-eq-ok (parents_of c tasks dep_grp) _ h in
            let (first, last) = (then-ok _ _).0 rest in
            (
              parents,
              found,
              All-map _ _ parents (λ v. (IsParent-iff dep_grp v).0) ((named parents).0 first),
              All-map _ _ dep_grp (λ e. (entry e).0) (listed.0 last),
            ),
        λ (parents, found, first, last). rw found (
            (then-ok _ _).1 (
              (named parents).1 (All-map _ _ parents (λ v. (IsParent-iff dep_grp v).1) first),
              listed.1 (All-map _ _ dep_grp (λ e. (entry e).1) last),
            )),
      )
