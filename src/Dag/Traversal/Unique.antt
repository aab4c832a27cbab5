-- ===== src/Dag/Traversal/Unique.antt =====
-- The ids that `_generate_job_ids2` of stolos/dag_tools/traversal.py yields, each once.
use mathlib.Core.Logic.{◌↔◌}
use stolos.Prelude.{
  ◌≡◌, refl, sym, ap, ◌∙◌, inl, inr, Bool, true, false, not, ◌&&◌, List, [], ◌∷◌, arith, Text, Dict,
  text_eq, text_eq_iff, mem_text, Bool-cases,
}
use stolos.Jobs.Actions.{Result, ok, raised, cons_result, map_ok}
use stolos.Jobs.Generators.{of_list}
use stolos.Dag.Tasks.{Tasks, format, autofill_or_empty}
use stolos.Dag.Groups.{Parsed}
use stolos.Dag.Product.{crossproduct}
use stolos.Dag.Product.Choices.{In, Picks, In-crossproduct_iff}
use stolos.Dag.Traversal.{
  zip_dict, unique_ids, prep_crossproduct, format_each, pairs, generate_job_ids2,
}

abbrev pub no_dups : List Text → Bool
no_dups [] = true
no_dups (i ∷ ids) = not (mem_text i ids) && no_dups ids

mem-unique_ids :
    (x : Text) (so_far ids : List Text)
    → mem_text x (unique_ids so_far ids) ≡ (mem_text x ids && not (mem_text x so_far))
unfolding unique_ids
mem-unique_ids x so_far [] = refl
mem-unique_ids x so_far (i ∷ ids) =
    ground (arith, mem-unique_ids x so_far ids, mem-unique_ids x (i ∷ so_far) ids, text_eq_iff x i)

no_dups-unique_ids : (so_far ids : List Text) → no_dups (unique_ids so_far ids) ≡ true
unfolding unique_ids
no_dups-unique_ids so_far [] = refl
no_dups-unique_ids so_far (i ∷ ids) = ground (
  arith,
  no_dups-unique_ids so_far ids,
  no_dups-unique_ids (i ∷ so_far) ids,
  mem-unique_ids i (i ∷ so_far) ids,
  text_eq_iff i i,
)

yields_lem :
    (k : Tasks) (grp : Parsed k) (parts : Dict k.Value) (child : Text)
    (values : List (List k.Value)) (ids : List Text)
    → prep_crossproduct k (k.template child) grp (autofill_or_empty k child) parts ≡ ok values
    → format_each k child values ≡ ok ids
    → generate_job_ids2 k grp parts child ≡ of_list (pairs k child (unique_ids [] ids))
unfolding generate_job_ids2
yields_lem k grp parts child values ids prepared formatted = rw (prepared, formatted) refl

cons_result-ok :
    {B : Type 0} (r : Result B) (rs : Result (List B)) (bs : List B)
    → cons_result r rs ≡ ok bs
    → (b : B) × (rest : List B) × (r ≡ ok b) × (rs ≡ ok rest) × (bs ≡ b ∷ rest)
cons_result-ok (ok b) (ok rest) bs h = (b, rest, refl, refl, cc h)
cons_result-ok (ok b) (raised e) bs h = cc
cons_result-ok (raised e) rs bs h = cc

-- The texts of a list that is made one by one are those made of an element.
mem-map_ok :
    {A : Type 0} (f : A → Result Text) (items : List A) (ids : List Text) (x : Text)
    → map_ok f items ≡ ok ids
    → (mem_text x ids ≡ true) ↔ ((a : A) × In a items × (f a ≡ ok x))
mem-map_ok f [] ids x made =
    let none_there : mem_text x ids ≡ false = ground (arith, made) in
    (λ h. cc, λ (a, there, e). absurd there)
mem-map_ok f (a ∷ items) ids x made =
    let (id, rest, first, later, both) = cons_result-ok (f a) (map_ok f items) ids made in
    let ih = mem-map_ok f items rest x later in
    (
      λ h. elim (Bool-cases (text_eq x id)) [
        | inl same ↦ (a, inl refl, first ∙ ap ok (sym ((text_eq_iff x id).0 same)))
        | inr other ↦ let (c, there, e) = ih.0 (ground (arith, h, both, other)) in (c, inr there, e)
      ],
      λ (c, there, e). elim there [
        | inl here ↦
            let same : x ≡ id = ground (arith, ap f here, e, first) in
            ap (mem_text x) both ∙ ground (arith, (text_eq_iff x id).1 same)
        | inr later_on ↦ ap (mem_text x) both ∙ ground (arith, ih.1 (c, later_on, e))
      ],
    )

-- Where the values of each component of the child's id are found, and the template can be filled,
-- one call of `_generate_job_ids2`, for one child and one group, yields each id once, and yields
-- exactly the ids that the template makes of a choice of one value for each component.
pub generate_job_ids2_unique :
    (k : Tasks) (grp : Parsed k) (parts : Dict k.Value) (child : Text)
    (values : List (List k.Value)) (ids : List Text)
    → prep_crossproduct k (k.template child) grp (autofill_or_empty k child) parts ≡ ok values
    → format_each k child values ≡ ok ids
    → (l : List Text) × (generate_job_ids2 k grp parts child ≡ of_list (pairs k child l))
      × (no_dups l ≡ true)
      × ((x : Text)
          → (mem_text x l ≡ true) ↔ (
              (choice : List k.Value) × Picks choice values
              × (format k (k.layout child) (zip_dict (k.template child) choice) ≡ ok x)))
unfolding generate_job_ids2 format_each
generate_job_ids2_unique k grp parts child values ids prepared formatted = (
  unique_ids [] ids,
  yields_lem k grp parts child values ids prepared formatted,
  no_dups-unique_ids [] ids,
  λ x.
      let made =
        mem-map_ok (λ choice. format k (k.layout child) (zip_dict (k.template child) choice))
          (crossproduct values) ids x formatted in
      let listed : mem_text x (unique_ids [] ids) ≡ mem_text x ids =
        mem-unique_ids x [] ids ∙ ground arith in
      (
        λ h.
            let (choice, there, e) = made.0 (sym listed ∙ h) in
            (choice, (In-crossproduct_iff choice values).0 there, e),
        λ (choice, picks, e).
            listed ∙ made.1 (choice, (In-crossproduct_iff choice values).1 picks, e),
      ),
)
