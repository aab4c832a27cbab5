-- ===== src/Prelude/Split.antt =====
-- Python's `sep.join`, `str.split(sep, maxsplit)` and `"%d" % n`.
use Prim.Native.Nat.{ℕ, zero, suc, ◌+◌, ◌-◌, ◌*◌, ◌/◌, ◌%◌, ◌<◌, ◌≤◌}
use mathlib.Core.Path.{◌≡◌, refl, ap, ◌∙◌}
use mathlib.Core.Bool.{Bool, true, false, ◌&&◌, ◌||◌}
use mathlib.Core.Logic.{inl, inr}
use mathlib.Core.Option.{Option, none, some}
use mathlib.Core.List.{List, [], ◌∷◌, ◌++◌}
use native.Mathlib.Omega.{arith}
use stolos.Prelude.Tests.{leb, Bool-cases, ltb→lt, ◌==◌, ltb, if◌then◌else◌}
use stolos.Prelude.Texts.{Text, length}

-- `c in t`, for one character
abbrev pub has_char : ℕ → Text → Bool
has_char c [] = false
has_char c (x ∷ xs) = (c == x) || has_char c xs

abbrev pub starts_with : Text → Text → Bool
starts_with [] t = true
starts_with (p ∷ ps) [] = false
starts_with (p ∷ ps) (c ∷ cs) = (p == c) && starts_with ps cs

abbrev cons_head : ℕ → List Text → List Text
cons_head c [] = (c ∷ []) ∷ []
cons_head c (t ∷ ts) = (c ∷ t) ∷ ts

-- `max` splits are left; `skip` characters of a separator are still to be passed over.
split_from : Text → (max skip : ℕ) → Text → List Text
split_from sep max skip [] = [] ∷ []
split_from sep max (suc skip) (c ∷ cs) = split_from sep max skip cs
split_from sep zero zero (c ∷ cs) = (c ∷ cs) ∷ []
split_from sep (suc max) zero (c ∷ cs) =
    let here = [] ∷ split_from sep max (length sep - 1) cs in
    let later = cons_head c (split_from sep (suc max) zero cs) in
    if starts_with sep (c ∷ cs) then here else later

-- `t.split(sep, max)`, for a separator that is not empty
unfoldable pub split : Text → ℕ → Text → List Text
unfolding split_from
split sep max t = split_from sep max 0 t

-- `sep.join(parts)`
abbrev pub join_by : Text → List Text → Text
join_by sep [] = []
join_by sep (t ∷ []) = t
join_by sep (t ∷ u ∷ ts) = t ++ sep ++ join_by sep (u ∷ ts)

-- With one character as the separator, a part without it is split off whole.
pub split_part :
    (d k : ℕ) (part rest : Text)
    → has_char d part ≡ false
    → split (d ∷ []) (suc k) (part ++ d ∷ rest) ≡ part ∷ split (d ∷ []) k rest
unfolding split
split_part d k [] rest h = ground arith
split_part d k (c ∷ cs) rest h = ground (arith, split_part d k cs rest)

pub split_all : (d k : ℕ) (t : Text) → has_char d t ≡ false → split (d ∷ []) k t ≡ t ∷ []
unfolding split
split_all d k [] h = refl
split_all d zero (c ∷ cs) h = refl
split_all d (suc k) (c ∷ cs) h = ground (arith, split_all d (suc k) cs)

pub split_zero : (sep t : Text) → split sep 0 t ≡ t ∷ []
unfolding split
split_zero sep [] = refl
split_zero sep (c ∷ cs) = refl

-- The digits of `n`, in front of `acc`.
decimal_from : (fuel n : ℕ) → Text → Text
decimal_from zero n acc = acc
decimal_from (suc fuel) n acc =
    let digits = (48 + n % 10) ∷ acc in
    let rest = decimal_from fuel (n / 10) digits in if ltb n 10 then digits else rest

-- `"%d" % n`: a number has fewer digits than its successor, so the fuel is enough.
unfoldable pub decimal : ℕ → Text
unfolding decimal_from
decimal n = decimal_from (suc n) n []

decimal_from-has_char :
    (c fuel n : ℕ) (acc : Text)
    → 57 < c
    → has_char c acc ≡ false
    → has_char c (decimal_from fuel n acc) ≡ false
unfolding decimal_from
decimal_from-has_char c zero n acc big h = h
decimal_from-has_char c (suc fuel) n acc big h =
    ground (arith, decimal_from-has_char c fuel (n / 10) ((48 + n % 10) ∷ acc) big)

-- No character above `9` stands among the digits of a number.
pub decimal-has_char : (c n : ℕ) → 57 < c → has_char c (decimal n) ≡ false
unfolding decimal
decimal-has_char c n big = decimal_from-has_char c (suc n) n [] big refl

-- `int(t)` for a text of digits; none means ValueError. Python reads signs and blanks too, which
-- a number that was printed does not have.
value_from : ℕ → Text → Option ℕ
value_from v [] = some v
value_from v (c ∷ cs) = if leb 48 c && leb c 57 then value_from (v * 10 + (c - 48)) cs else none

unfoldable pub int_of : Text → Option ℕ
unfolding value_from
int_of [] = none
int_of (c ∷ cs) = value_from 0 (c ∷ cs)

-- `t.isdigit()`, for ASCII
abbrev pub all_digits : Text → Bool
all_digits [] = true
all_digits (c ∷ cs) = (leb 48 c && leb c 57) && all_digits cs

abbrev pub is_digits : Text → Bool
is_digits [] = false
is_digits (c ∷ cs) = all_digits (c ∷ cs)

value_from-digits : (v : ℕ) (t : Text) → all_digits t ≡ true → (n : ℕ) × (value_from v t ≡ some n)
unfolding value_from
value_from-digits v [] h = (v, refl)
value_from-digits v (c ∷ cs) h =
    let digit : (leb 48 c && leb c 57) ≡ true = ground arith in
    rw digit (value_from-digits (v * 10 + (c - 48)) cs (ground arith))

pub int_of-digits : (t : Text) → is_digits t ≡ true → (n : ℕ) × (int_of t ≡ some n)
unfolding int_of
int_of-digits [] h = cc
int_of-digits (c ∷ cs) h = value_from-digits 0 (c ∷ cs) h

length-cons_head : (c : ℕ) (ts : List Text) → 0 < length ts → length (cons_head c ts) ≡ length ts
length-cons_head c [] h = absurd (omega arith)
length-cons_head c (t ∷ ts) h = refl

length-split_from :
    (sep : Text) (max skip : ℕ) (t : Text)
    → (0 < length (split_from sep max skip t)) × (length (split_from sep max skip t) ≤ max + 1)
unfolding split_from
length-split_from sep max skip [] = omega arith
length-split_from sep max (suc skip) (c ∷ cs) = length-split_from sep max skip cs
length-split_from sep zero zero (c ∷ cs) = omega arith
length-split_from sep (suc max) zero (c ∷ cs) =
    let later = split_from sep (suc max) zero cs in
    elim (Bool-cases (starts_with sep (c ∷ cs))) [
      | inl here ↦ rw here (omega (arith, length-split_from sep max (length sep - 1) cs))
      | inr on ↦
          let ih = length-split_from sep (suc max) zero cs in
          rw (on, length-cons_head c later ih.0) ih
    ]

-- With at most `max` splits there are at most `max + 1` parts.
pub length-split :
    (sep : Text) (max : ℕ) (t : Text)
    → (0 < length (split sep max t)) × (length (split sep max t) ≤ max + 1)
unfolding split
length-split sep max t = length-split_from sep max 0 t

value_from-digit :
    (v d : ℕ) (acc : Text) → d < 10 → value_from v ((48 + d) ∷ acc) ≡ value_from (v * 10 + d) acc
unfolding value_from
value_from-digit v d acc h = let e : 48 + d - 48 ≡ d = omega arith in rw e (ground arith)

value_from-decimal_from :
    (fuel n : ℕ) (acc : Text) → n < fuel → value_from 0 (decimal_from fuel n acc) ≡ value_from n acc
unfolding decimal_from
value_from-decimal_from zero n acc h = absurd (omega arith)
value_from-decimal_from (suc fuel) n acc h =
    let digits = (48 + n % 10) ∷ acc in
    let rest = decimal_from fuel (n / 10) digits in
    let last : ℕ → Option ℕ = λ v. value_from v acc in
    elim (Bool-cases (ltb n 10)) [
      | inl small ↦
          let e : 0 * 10 + n % 10 ≡ n = omega (arith, ltb→lt n 10 small) in
          ap (λ (t : Bool). value_from 0 (if t then digits else rest)) small
          ∙ value_from-digit 0 (n % 10) acc (omega arith)
          ∙ ap last e
      | inr large ↦
          let below : n / 10 < fuel = ground arith in
          let e : (n / 10) * 10 + n % 10 ≡ n = omega arith in
          ap (λ (t : Bool). value_from 0 (if t then digits else rest)) large
          ∙ value_from-decimal_from fuel (n / 10) digits below
          ∙ value_from-digit (n / 10) (n % 10) acc (omega arith)
          ∙ ap last e
    ]

length-decimal_from : (fuel n : ℕ) (acc : Text) → length acc ≤ length (decimal_from fuel n acc)
unfolding decimal_from
length-decimal_from zero n acc = omega arith
length-decimal_from (suc fuel) n acc =
    ground (arith, length-decimal_from fuel (n / 10) ((48 + n % 10) ∷ acc))

int_of_lem : (t : Text) → 0 < length t → int_of t ≡ value_from 0 t
unfolding int_of
int_of_lem [] h = absurd (omega arith)
int_of_lem (c ∷ cs) h = refl

length-decimal : (n : ℕ) → 0 < length (decimal n)
unfolding decimal
length-decimal n = ground (arith, length-decimal_from n (n / 10) ((48 + n % 10) ∷ []))

-- Reading a number back gives the number.
pub int_of-decimal : (n : ℕ) → int_of (decimal n) ≡ some n
unfolding decimal value_from
int_of-decimal n =
    int_of_lem (decimal n) (length-decimal n) ∙ value_from-decimal_from (suc n) n [] (omega arith)
