-- ===== src/Dag/Validation/Outcomes.antt =====
-- How the checks of stolos/dag_tools/build.py compose: what it takes for a sequence of them to pass.
use mathlib.Core.Logic.{◌↔◌}
use mathlib.Core.Path.{subst}
use stolos.Prelude.{
  some, Dict, lookup, ◌≡◌, refl, sym, inl, inr, Bool-cases, Bool, true, false, not, ◌&&◌, List, [],
  ◌∷◌, arith, Text, mem_text, text_eq, text_eq_iff, text_eq_self,
}
use stolos.Jobs.Actions.{Result, ok, raised, and_then}
use stolos.Dag.Validation.{raise_if, each, difference, nonempty}

pub and_then-eq-ok :
    {A B : Type 0} (r : Result A) (f : A → Result B) {b : B}
    → and_then r f ≡ ok b
    → (a : A) × (r ≡ ok a) × (f a ≡ ok b)
and_then-eq-ok (ok a) f h = (a, refl, h)
and_then-eq-ok (raised e) f h = cc

-- Two checks pass if both do.
pub then-ok :
    (r : Result Unit) (s : Result Unit)
    → (and_then r (λ _. s) ≡ ok tt) ↔ ((r ≡ ok tt) × (s ≡ ok tt))
then-ok (ok tt) s = (λ h. (refl, h), λ h. h.1)
then-ok (raised e) s = (λ h. cc, λ h. cc)

pub raise_if-ok : (b : Bool) → (raise_if b ≡ ok tt) ↔ (b ≡ false)
raise_if-ok true = (λ h. cc, λ h. cc)
raise_if-ok false = (λ h. refl, λ h. refl)

abbrev pub All {ℓ κ} : {A : Type ℓ} → (A → Type κ) → List A → Type κ
All P [] = Unit
All P (x ∷ xs) = P x × All P xs

pub All-map {ℓ κ μ} :
    {A : Type ℓ} (P : A → Type κ) (Q : A → Type μ) (xs : List A)
    → ((x : A) → P x → Q x)
    → All P xs
    → All Q xs
All-map P Q [] f h = tt
All-map P Q (x ∷ xs) f h = (f x h.0, All-map P Q xs f h.1)

pub each-ok {ℓ} :
    {A : Type ℓ} (check : A → Result Unit) (xs : List A)
    → (each check xs ≡ ok tt) ↔ All (λ x. check x ≡ ok tt) xs
each-ok check [] = (λ h. tt, λ h. refl)
each-ok check (x ∷ xs) =
    let both = then-ok (check x) (each check xs) in
    let rest = each-ok check xs in
    (λ h. let (a, b) = both.0 h in (a, rest.0 b), λ h. both.1 (h.0, rest.1 h.1))

pub All-mem_text :
    (P : Text → Type 0) (p : Text) (xs : List Text) → All P xs → mem_text p xs ≡ true → P p
All-mem_text P p [] h m = cc
All-mem_text P p (x ∷ xs) h m = elim (Bool-cases (text_eq p x)) [
  | inl here ↦ subst P (sym ((text_eq_iff p x).0 here)) h.0
  | inr away ↦ All-mem_text P p xs h.1 (ground (arith, away))
]

pub mem_text-difference :
    (k : Text) (xs ys : List Text)
    → mem_text k (difference xs ys) ≡ (mem_text k xs && not (mem_text k ys))
mem_text-difference k [] ys = refl
mem_text-difference k (x ∷ xs) ys = elim (Bool-cases (text_eq k x)) [
  | inl here ↦
      let e = (text_eq_iff k x).0 here in
      subst
        (λ x. mem_text k (difference (x ∷ xs) ys) ≡ (mem_text k (x ∷ xs) && not (mem_text k ys))) e
        (ground (arith, mem_text-difference k xs ys, text_eq_self k))
  | inr away ↦ ground (arith, mem_text-difference k xs ys, away)
]

no_mem : (xs : List Text) → (nonempty xs ≡ false) ↔ ((k : Text) → mem_text k xs ≡ false)
no_mem [] = (λ h k. refl, λ h. refl)
no_mem (x ∷ xs) = (λ h. cc, λ h. ground (arith, h x, text_eq_self x))

-- A difference is empty exactly if the first list is within the second.
pub difference_empty :
    (xs ys : List Text)
    → (nonempty (difference xs ys) ≡ false)
      ↔ ((k : Text) → mem_text k xs ≡ true → mem_text k ys ≡ true)
difference_empty xs ys =
    let none_left = no_mem (difference xs ys) in
    (
      λ h k m. ground (arith, none_left.0 h k, mem_text-difference k xs ys),
      λ within. none_left.1 λ k. ground (arith, within k, mem_text-difference k xs ys),
    )

pub All-lookup :
    {V : Type 0} (P : V → Type 0) (k : Text) (d : Dict V) {v : V}
    → All (λ e. P e.1) d
    → lookup k d ≡ some v
    → P v
All-lookup P k [] h e = cc
All-lookup P k ((j, w) ∷ d) h e = elim (Bool-cases (text_eq k j)) [
  | inl here ↦ let same : w ≡ _ = cc (rw here at e) in subst P same h.0
  | inr away ↦ All-lookup P k d h.1 (rw away at e)
]
