-- ===== src/Dag/Autofill/Ranges.antt =====
-- Which numbers `get_autofill_values` of stolos/dag_tools/node.py reads from a text.
use mathlib.Core.Logic.{◌↔◌}
use stolos.Prelude.{
  ℕ, zero, suc, ◌+◌, ◌*◌, ◌≤◌, ◌<◌, ◌≡◌, ◌∙◌, ap, Bool, true, false, ◌||◌, Option, none, some, List,
  [], ◌∷◌, ◌++◌, map, arith, Text, txt, split, ltb, ◌==◌, if◌then◌else◌, inl, inr, Bool-cases,
  decimal, int_of-decimal, decimal-has_char, split_part, split_zero,
}
use stolos.Jobs.Actions.{Result, ok, and_then, cons_result, map_ok}
use stolos.Dag.Metadata.{text, Values, int}
use stolos.Dag.Autofill.{range_from, range, range_of, or_value_error, or_letters, parse_entry}

abbrev pub mem : ℕ → List ℕ → Bool
mem n [] = false
mem n (m ∷ ms) = (n == m) || mem n ms

-- With rounds enough, the numbers are those of the form `start + i * step` below `stop`.
range_from-mem :
    (rounds start stop step i : ℕ)
    → 0 < step
    → stop ≤ start + rounds
    → start + i * step < stop
    → mem (start + i * step) (range_from rounds start stop step) ≡ true
unfolding range_from
range_from-mem zero start stop step i h enough below = absurd (grind arith)
range_from-mem (suc rounds) start stop step zero h enough below = ground arith
range_from-mem (suc rounds) start stop step (suc i) h enough below =
    let e : start + suc i * step ≡ (start + step) + i * step = grind arith in
    let later =
      range_from-mem rounds (start + step) stop step i h (omega arith) (omega (arith, e)) in
    let first : start < stop = grind arith in rw e (ground (arith, later, first))

mem-range_from :
    (rounds start stop step n : ℕ)
    → mem n (range_from rounds start stop step) ≡ true
    → (i : ℕ) × (n ≡ start + i * step) × (n < stop)
unfolding range_from
mem-range_from zero start stop step n h = cc
mem-range_from (suc rounds) start stop step n h = elim (Bool-cases (ltb start stop)) [
  | inl more ↦ elim (Bool-cases (n == start)) [
    | inl here ↦ (0, ground (arith, here), ground (arith, here, more))
    | inr away ↦
        let (i, e, below) =
          mem-range_from rounds (start + step) stop step n (ground (arith, h, more, away)) in
        (suc i, grind (arith, e), below)
  ]
  | inr done ↦ cc (rw done at h)
]

range-mem_iff :
    (start stop step n : ℕ)
    → 0 < step
    → (mem n (range start stop step) ≡ true) ↔ ((i : ℕ) × (n ≡ start + i * step) × (n < stop))
range-mem_iff start stop step n h = (
  mem-range_from stop start stop step n,
  λ (i, e, below).
      ap (λ m. mem m (range start stop step)) e
      ∙ range_from-mem stop start stop step i h (omega arith) (omega (arith, e)),
)

abbrev colon : ℕ
colon = b':'

-- `start:stop:step`
abbrev pub range_text : (start stop step : ℕ) → Text
range_text start stop step = decimal start ++ colon ∷ (decimal stop ++ colon ∷ decimal step)

split-range_text :
    (start stop step : ℕ)
    → split (txt ":") 2 (range_text start stop step)
      ≡ decimal start ∷ decimal stop ∷ decimal step ∷ []
split-range_text start stop step =
    let plain = λ (n : ℕ). decimal-has_char colon n (omega arith) in
    split_part colon 1 (decimal start) (decimal stop ++ colon ∷ decimal step) (plain start)
    ∙ ap (◌∷◌ (decimal start)) (
        split_part colon 0 (decimal stop) (decimal step) (plain stop)
        ∙ ap (◌∷◌ (decimal stop)) (split_zero (txt ":") (decimal step)))

module _ (c : Values) (number : ℕ → c.Value) where
  open c use {Value, of_text}

  abbrev pub letters : Text → List Value
  letters t = map (λ letter. of_text (letter ∷ [])) t

  or_letters-range :
      (t : Text) (rounds start stop step : ℕ)
      → stop ≤ rounds
      → or_letters c number t (range_from rounds start stop step)
        ≡ (if ltb start stop then map number (range_from rounds start stop step) else letters t)
  unfolding range_from
  or_letters-range t zero start stop step h = ground arith
  or_letters-range t (suc rounds) start stop step h = ground arith

  int-decimal : (n : ℕ) → int c (decimal n) ≡ some n
  int-decimal n =
      ap (λ (o : Option ℕ). elim o [ some m ↦ some m | none ↦ c.other_int (decimal n) ])
        (int_of-decimal n)

  -- The value `start:stop:step` of an autofill key, for numbers with a step of at least 1: where
  -- start is below stop, it gives the numbers start + i * step below stop. Where it is not, it gives the
  -- characters of the text, one by one.
  pub parse_entry-range :
      (start stop step : ℕ)
      → 0 < step
      → (parse_entry c number (text (range_text start stop step))
          ≡ ok (
              if ltb start stop
              then map number (range start stop step)
              else letters (range_text start stop step)))
        × ((n : ℕ)
            → (mem n (range start stop step) ≡ true)
              ↔ ((i : ℕ) × (n ≡ start + i * step) × (n < stop)))
  unfolding parse_entry
  parse_entry-range start stop step h =
      let t = range_text start stop step in
      let numbers = λ (parts : List Text). map_ok (λ part. or_value_error (int c part)) parts in
      let run = λ (r : Result (List ℕ)).
        and_then r (λ ns. and_then (range_of ns) (λ ms. ok (or_letters c number t ms))) in
      let read : numbers (split (txt ":") 2 t) ≡ ok (start ∷ stop ∷ step ∷ []) =
        ap numbers (split-range_text start stop step) ∙ (λ i.
          cons_result (or_value_error (int-decimal start i)) (
            cons_result (or_value_error (int-decimal stop i))
              (cons_result (or_value_error (int-decimal step i)) (ok [])))) in
      let stepped : (step == 0) ≡ false = ground arith in
      (
        ap run read ∙ rw stepped (ap ok (or_letters-range t stop start stop step (omega arith))),
        λ n. range-mem_iff start stop step n h,
      )
