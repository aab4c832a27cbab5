-- ===== src/Dag/Autofill/Validated.antt =====
-- What the validation of autofill values in stolos/dag_tools/build.py leaves to go wrong in
-- `get_autofill_values` of stolos/dag_tools/node.py.
use stolos.Prelude.{
  Dict, ℕ, ◌≤◌, ◌<◌, ◌≡◌, refl, ◌∙◌, ap, not, true, none, some, mem_text, text_eq_self, List, [],
  ◌∷◌, arith, Text, txt, split, length-split, length, ◌==◌, inl, inr, Bool-cases, ◌⊎◌, Option-cases,
}
use stolos.Jobs.Actions.{Result, ok, raised, and_then, map_ok, value_error}
use stolos.Dag.Metadata.{Entry, sequence, text, scalar, Metadata, Values, isdigit, int}
use stolos.Dag.Validation.Checks.{check_autofill, all_are_digits}
use stolos.Dag.Validation.Outcomes.{raise_if-ok}
use stolos.Dag.Autofill.{range, range_of, or_value_error, or_letters, parse_entry}

module _ (c : Values) (number : ℕ → c.Value) where
  open c use {Value}

  abbrev numbers : List Text → Result (List ℕ)
  numbers parts = map_ok (λ part. or_value_error (int c part)) parts

  run_parts : Text → List Text → Result (List Value)
  run_parts t parts =
      and_then (numbers parts) (λ ns. and_then (range_of ns) (λ ms. ok (or_letters c number t ms)))

  -- The three ways in which the value that is made of the parts comes out.
  abbrev Outcome : List Text → Result (List Value) → Type 0
  Outcome parts r =
      ((vs : List Value) × (r ≡ ok vs))
      ⊎ (((start : Text) × (stop : Text) × (step : Text) × (parts ≡ start ∷ stop ∷ step ∷ [])
            × (int c step ≡ some 0)
            × (r ≡ raised value_error))
          ⊎ ((part : Text) × (mem_text part parts ≡ true)
              × (isdigit c part ≡ true)
              × (int c part ≡ none)
              × (r ≡ raised value_error)))

  -- Each part is read as the number beside it.
  AreRead : List Text → List ℕ → Type 0
  AreRead [] [] = Unit
  AreRead (part ∷ parts) (n ∷ ns) = (int c part ≡ some n) × AreRead parts ns
  AreRead _ _ = ⊥

  -- The parts are read, but for the first that `int` refuses.
  numbers_lem :
      (parts : List Text)
      → all_are_digits c parts ≡ true
      → ((ns : List ℕ) × AreRead parts ns × (numbers parts ≡ ok ns))
        ⊎ ((part : Text) × (mem_text part parts ≡ true)
            × (isdigit c part ≡ true)
            × (int c part ≡ none)
            × (numbers parts ≡ raised value_error))
  unfolding AreRead
  numbers_lem [] h = inl ([], tt, refl)
  numbers_lem (a ∷ parts) h = elim (Option-cases (int c a)) [
    | inl unread ↦
        inr (a, ground (arith, text_eq_self a), ground (arith, h), unread, rw unread refl)
    | inr (n, read) ↦ elim (numbers_lem parts (ground (arith, h))) [
      | inl (ns, rest, e) ↦ inl (n ∷ ns, (read, rest), rw read (rw e refl))
      | inr (part, there, digits, unread, e) ↦
          inr (part, ground (arith, there), digits, unread, rw read (rw e refl))
    ]
  ]

  range-Outcome :
      (t : Text) (parts : List Text) (ns : List ℕ)
      → AreRead parts ns
      → (0 < length parts) × (length parts ≤ 3)
      → Outcome parts (and_then (range_of ns) (λ ms. ok (or_letters c number t ms)))
  unfolding range_of AreRead
  range-Outcome t [] [] read h = absurd (omega arith)
  range-Outcome t [] (n ∷ ns) read h = absurd read
  range-Outcome t (a ∷ parts) [] read h = absurd read
  range-Outcome t (a ∷ []) (x ∷ []) read h = inl (or_letters c number t (range 0 x 1), refl)
  range-Outcome t (a ∷ []) (x ∷ y ∷ ns) read h = absurd read.1
  range-Outcome t (a ∷ b ∷ parts) (x ∷ []) read h = absurd read.1
  range-Outcome t (a ∷ b ∷ []) (x ∷ y ∷ []) read h = inl (or_letters c number t (range x y 1), refl)
  range-Outcome t (a ∷ b ∷ []) (x ∷ y ∷ k ∷ ns) read h = absurd read.1.1
  range-Outcome t (a ∷ b ∷ z ∷ parts) (x ∷ y ∷ []) read h = absurd read.1.1
  range-Outcome t (a ∷ b ∷ z ∷ []) (x ∷ y ∷ k ∷ []) read h = elim (Bool-cases (k == 0)) [
    | inl stopped ↦
        let step : k ≡ 0 = ground arith in
        inr (inl (a, b, z, refl, read.1.1.0 ∙ ap some step, rw stopped refl))
    | inr stepped ↦ inl (or_letters c number t (range x y k), rw stepped refl)
  ]
  range-Outcome t (a ∷ b ∷ z ∷ []) (x ∷ y ∷ k ∷ n ∷ ns) read h = absurd read.1.1.1
  range-Outcome t (a ∷ b ∷ z ∷ w ∷ parts) ns read h = absurd (omega arith)

  parts-Outcome :
      (t : Text) (parts : List Text)
      → (0 < length parts) × (length parts ≤ 3)
      → all_are_digits c parts ≡ true
      → Outcome parts (run_parts t parts)
  unfolding run_parts
  parts-Outcome t parts h digits = elim (numbers_lem parts digits) [
    | inl (ns, read, e) ↦ rw e (range-Outcome t parts ns read h)
    | inr (part, there, accepted, unread, e) ↦ inr (inr (part, there, accepted, unread, rw e refl))
  ]

  -- What the validation of autofill values accepts is parsed without an error, with two exceptions,
  -- which raise ValueError: a text of three numbers of which the third, the step, is 0, and a text with
  -- a part that `isdigit` accepts and `int` does not read.
  pub check_autofill-parse_entry :
      (tasks : Dict (Metadata Value)) (x : Entry Value)
      → check_autofill c tasks x ≡ ok tt
      → ((vs : List Value) × (parse_entry c number x ≡ ok vs))
        ⊎ ((t : Text) × (x ≡ text t)
            × (parse_entry c number x ≡ raised value_error)
            × (((start : Text) × (stop : Text) × (step : Text) × (split (txt ":") 2 t
                    ≡ start ∷ stop ∷ step ∷ [])
                  × (int c step ≡ some 0))
                ⊎ ((part : Text) × (mem_text part (split (txt ":") 2 t) ≡ true)
                    × (isdigit c part ≡ true)
                    × (int c part ≡ none))))
  unfolding check_autofill
  check_autofill-parse_entry tasks (sequence vs) valid = inl (vs, unfold parse_entry in refl)
  check_autofill-parse_entry tasks (text t) valid =
      let parts = split (txt ":") 2 t in
      let test = raise_if-ok (not (all_are_digits c parts)) in
      elim (parts-Outcome t parts (length-split (txt ":") 2 t) (ground (arith, test.0 valid))) [
        | inl (vs, e) ↦ inl (vs, unfold parse_entry run_parts in e)
        | inr (inl (start, stop, step, three, zero_step, e)) ↦
            inr (
              t,
              refl,
              unfold parse_entry run_parts in e,
              inl (start, stop, step, three, zero_step),
            )
        | inr (inr (part, there, accepted, unread, e)) ↦
            inr (t, refl, unfold parse_entry run_parts in e, inr (part, there, accepted, unread))
      ]
  check_autofill-parse_entry tasks (scalar v) valid = cc valid
