-- ===== src/Dag/Validation/Consistency.antt =====
-- The loop over the identifiers in `_validate_dependency_groups` of stolos/dag_tools/build.py, which
-- is to make sure that the groups of a list have the same value at each identifier.
use mathlib.Core.Logic.{◌↔◌}
use stolos.Prelude.{
  ◌≡◌, ◌≢◌, refl, ◌∙◌, ap, Bool, true, false, not, Option, none, some, List, [], ◌∷◌, arith, Text,
  Dict, lookup, txt,
}
use stolos.Jobs.Actions.{ok, raised, and_then, dag_misconfigured}
use stolos.Dag.Metadata.{Entry, sequence, text, scalar, mappings, Metadata, Values, template_of}
use stolos.Dag.Validation.{raise_if}
use stolos.Dag.Validation.Groups.{
  first, compared, compare_next, is_true, fold_same, same_entry, reduce_same, values_at,
  check_identifier, validate_group, validate_named,
}
use stolos.Dag.Validation.Outcomes.{All, All-map, All-lookup, then-ok, raise_if-ok, each-ok}
use stolos.Dag.Validation.WellFormed.{IsChoice, validate_metadata_iff}

module _ (c : Values) (tasks : Dict (Metadata c.Value)) where
  open c use {Value}

  abbrev Group : Type 0
  Group = Dict (Entry Value)

  -- A group whose jobs are not listed, but to be found.
  abbrev pub HasNoJobId : Group → Type 0
  HasNoJobId dep_grp = lookup (txt "job_id") dep_grp ≡ none

  abbrev IsNoScalar : Option (Entry Value) → Type 0
  IsNoScalar (some (scalar v)) = ⊥
  IsNoScalar _ = Unit

  module _ (meta : Metadata Value) where
    group-IsNoScalar :
        (identifier : Text) (dep_grp : Group) (x : Option (Entry Value))
        → validate_group c tasks meta dep_grp ≡ ok tt
        → lookup identifier dep_grp ≡ x
        → IsNoScalar x
    unfolding validate_group
    group-IsNoScalar identifier dep_grp none h e = tt
    group-IsNoScalar identifier dep_grp (some (text t)) h e = tt
    group-IsNoScalar identifier dep_grp (some (sequence vs)) h e = tt
    group-IsNoScalar identifier dep_grp (some (scalar v)) h e =
        let checked = (then-ok _ _).0 ((then-ok _ _).0 h).1 in
        let (vs, found, parents, entries) =
          (validate_metadata_iff c tasks meta dep_grp).0 checked.0 in
        All-lookup (IsChoice c tasks meta) identifier dep_grp entries e

    values_at-IsNoScalar :
        (identifier : Text) (grps : List Group)
        → All (λ g. validate_group c tasks meta g ≡ ok tt) grps
        → All HasNoJobId grps
        → All IsNoScalar (values_at c tasks identifier grps)
    unfolding values_at
    values_at-IsNoScalar identifier [] h j = tt
    values_at-IsNoScalar identifier (g ∷ grps) h j = rw j.0 (
      group-IsNoScalar identifier g (lookup identifier g) h.0 refl,
      values_at-IsNoScalar identifier grps h.1 j.1,
    )

  -- A comparison with what a comparison returned is false.
  fold_same-compared :
      (b : Bool) (x : Option (Entry Value)) (xs : List (Option (Entry Value)))
      → IsNoScalar x
      → All IsNoScalar xs
      → fold_same c tasks (compared b) (x ∷ xs) ≡ compared false
  unfolding fold_same
  fold_same-compared b none [] h hs = refl
  fold_same-compared b (some (sequence vs)) [] h hs = refl
  fold_same-compared b (some (text t)) [] h hs = refl
  fold_same-compared b (some (scalar v)) xs h hs = absurd h
  fold_same-compared b none (y ∷ ys) h hs = fold_same-compared false y ys hs.0 hs.1
  fold_same-compared b (some (sequence vs)) (y ∷ ys) h hs = fold_same-compared false y ys hs.0 hs.1
  fold_same-compared b (some (text t)) (y ∷ ys) h hs = fold_same-compared false y ys hs.0 hs.1

  three_values :
      (x y z : Option (Entry Value)) (xs : List (Option (Entry Value)))
      → IsNoScalar z
      → All IsNoScalar xs
      → reduce_same c tasks (x ∷ y ∷ z ∷ xs) ≡ ok false
  unfolding reduce_same
  three_values x y z xs h hs =
      ap (λ acc. ok (is_true c tasks acc))
        (fold_same-compared (compare_next c tasks (first x) y) z xs h hs)

  values_at_cons :
      (k : Text) (g : Group) (grps : List Group)
      → HasNoJobId g
      → values_at c tasks k (g ∷ grps) ≡ lookup k g ∷ values_at c tasks k grps
  unfolding values_at
  values_at_cons k g grps h = rw h refl

  check_three :
      (f g h : Group) (grps : List Group) (k : Text)
      → All HasNoJobId (f ∷ g ∷ h ∷ grps)
      → IsNoScalar (lookup k h)
      → All IsNoScalar (values_at c tasks k grps)
      → check_identifier c tasks (f ∷ g ∷ h ∷ grps) k ≡ raised dag_misconfigured
  unfolding check_identifier
  check_three f g h grps k (hf, (hg, (hh, rest))) plain plains =
      let three =
        values_at_cons k f (g ∷ h ∷ grps) hf
        ∙ ap (◌∷◌ (lookup k f)) (
            values_at_cons k g (h ∷ grps) hg
            ∙ ap (◌∷◌ (lookup k g)) (values_at_cons k h grps hh)) in
      let unequal =
        ap (reduce_same c tasks) three
        ∙ three_values (lookup k f) (lookup k g) (lookup k h) (values_at c tasks k grps) plain
            plains in
      ap (λ r. and_then r (λ consistent. raise_if (not consistent))) unequal

  check_two :
      (f g : Group) (identifier : Text)
      → HasNoJobId f
      → HasNoJobId g
      → (check_identifier c tasks (f ∷ g ∷ []) identifier ≡ ok tt)
        ↔ (same_entry c tasks (lookup identifier f) (lookup identifier g) ≡ true)
  unfolding check_identifier
  check_two f g identifier hf hg =
      let same = same_entry c tasks (lookup identifier f) (lookup identifier g) in
      let test = raise_if-ok (not same) in
      rw (hf, hg) (λ passed. ground (arith, test.0 passed), λ e. test.1 (ground (arith, e)))

  module _ (meta : Metadata Value) where
    -- A list of two groups without job_id is accepted exactly if each of them is, and if the two have
    -- equal values, or none, at each identifier of the template.
    two_groups_iff :
        (f g : Group)
        → HasNoJobId f
        → HasNoJobId g
        → (validate_named c tasks meta (mappings (f ∷ g ∷ [])) ≡ ok tt) ↔ (
            (validate_group c tasks meta f ≡ ok tt)
            × (validate_group c tasks meta g ≡ ok tt)
            × All (λ k. same_entry c tasks (lookup k f) (lookup k g) ≡ true) (template_of c meta))
    unfolding validate_named
    two_groups_iff f g hf hg =
        let groups = each-ok (validate_group c tasks meta) (f ∷ g ∷ []) in
        let identifiers = each-ok (check_identifier c tasks (f ∷ g ∷ [])) (template_of c meta) in
        let two = λ (k : Text). check_two f g k hf hg in
        (
          λ passed.
              let (one, other) = (then-ok _ _).0 passed in
              let both = groups.0 one in
              (
                both.0,
                both.1.0,
                All-map _ _ (template_of c meta) (λ k. (two k).0) (identifiers.0 other),
              ),
          λ (valid_f, valid_g, same). (then-ok _ _).1 (
            groups.1 (valid_f, (valid_g, tt)),
            identifiers.1 (All-map _ _ (template_of c meta) (λ k. (two k).1) same),
          ),
        )

    -- A list of three or more groups without job_id is never accepted where the template has an
    -- identifier, not even if the groups are equal.
    pub three_groups_refused :
        (f g h : Group) (grps : List Group) (k : Text) (ks : List Text)
        → template_of c meta ≡ k ∷ ks
        → All HasNoJobId (f ∷ g ∷ h ∷ grps)
        → validate_named c tasks meta (mappings (f ∷ g ∷ h ∷ grps)) ≢ ok tt
    unfolding validate_named
    three_groups_refused f g h grps k ks e jobs passed =
        let (one, other) = (then-ok _ _).0 passed in
        let valid = (each-ok (validate_group c tasks meta) (f ∷ g ∷ h ∷ grps)).0 one in
        let plain = group-IsNoScalar meta k h (lookup k h) valid.1.1.0 refl in
        let rest = values_at-IsNoScalar meta k grps valid.1.1.1 jobs.1.1.1 in
        let check = check_identifier c tasks (f ∷ g ∷ h ∷ grps) in
        let at : check k ≡ ok tt = ((each-ok check (k ∷ ks)).0 (rw e at other)).0 in
        cc (at, check_three f g h grps k jobs plain rest)
