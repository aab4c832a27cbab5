-- ===== src/Jobs/Actions.antt =====
-- Python statements that change the backend and may raise: stolos/exceptions.py, and the builtin
-- exceptions that the code raises. What was written before a raise stays written.
use mathlib.Core.Path.{subst}
use stolos.Prelude.{◌≡◌, refl, ap, Bool, true, false, List, [], ◌∷◌}

pub data Exception : Type 0 where
  no_node node_exists code_error job_already_queued could_not_obtain_lock : Exception
  lock_already_acquired dag_misconfigured invalid_job_id : Exception
  user_warning assertion_error value_error key_error type_error attribute_error recursion_error :
      Exception

pub data Result (A : Type 0) : Type 0 where
  ok : A → Result A
  raised : Exception → Result A

abbrev pub cons_result : {B : Type 0} → Result B → Result (List B) → Result (List B)
cons_result (ok b) (ok bs) = ok (b ∷ bs)
cons_result (ok b) (raised e) = raised e
cons_result (raised e) _ = raised e

module _ {A B : Type 0} where
  abbrev pub and_then : Result A → (A → Result B) → Result B
  and_then (ok a) f = f a
  and_then (raised e) f = raised e

  -- `[f(a) for a in items]`
  abbrev pub map_ok : (A → Result B) → List A → Result (List B)
  map_ok f [] = ok []
  map_ok f (a ∷ items) = cons_result (f a) (map_ok f items)

abbrev pub Action : Type 0 → Type 0 → Type 0
Action S A = S → Result A × S

module _ {S A : Type 0} where
  abbrev pub pure : A → Action S A
  pure a s = (ok a, s)

  abbrev pub raise : Exception → Action S A
  raise e s = (raised e, s)

  abbrev pub lift : Result A → Action S A
  lift r s = (r, s)

  -- `try: body` / `finally: cleanup`, where the cleanup may raise too
  abbrev pub try_finally : Action S A → Action S Unit → Action S A
  try_finally body cleanup s =
      let (result, s₁) = body s in
      let (cleaned, s₂) = cleanup s₁ in (elim cleaned [ ok _ ↦ result | raised e ↦ raised e ], s₂)

  -- `try: body` / `except …`; a handler raises again what it does not catch.
  abbrev pub on_error : Action S A → (Exception → Action S A) → Action S A
  on_error body handler s =
      let (result, s₁) = body s in elim result [ ok a ↦ (ok a, s₁) | raised e ↦ handler e s₁ ]

module _ {S A B : Type 0} where
  infixl 5 ◌>>=◌ ◌>>◌
  abbrev pub ◌>>=◌ : Action S A → (A → Action S B) → Action S B
  ◌>>=◌ m f s = let (r, s') = m s in elim r [ ok a ↦ f a s' | raised e ↦ (raised e, s') ]

  abbrev pub ◌>>◌ : Action S A → Action S B → Action S B
  m >> n = m >>= λ _. n

-- `assert test`, and `if test: raise …`
module _ {S : Type 0} where
  abbrev pub require : Bool → Exception → Action S Unit
  require true e s = (ok tt, s)
  require false e s = (raised e, s)

-- A statement that does not raise hands its value and its state to the next one.
module _ {S A B : Type 0} where
  pub bind_ok :
      (m : Action S A) (f : A → Action S B) {s s' : S} {a : A}
      → m s ≡ (ok a, s')
      → (m >>= f) s ≡ f a s'
  bind_ok m f e = ap (λ x. elim x.0 [ ok a ↦ f a x.1 | raised e ↦ (raised e, x.1) ]) e

  pub then_ok :
      (m : Action S A) (n : Action S B) {s s' : S} {a : A} → m s ≡ (ok a, s') → (m >> n) s ≡ n s'
  then_ok m n e = bind_ok m (λ _. n) e

-- A property of the value, where a statement does not raise.
abbrev pub OnOk {ℓ} : {A : Type 0} → (A → Type ℓ) → Result A → Type ℓ
OnOk P (ok a) = P a
OnOk P (raised e) = Unit

pub OnOk-at {ℓ} : {A : Type 0} (P : A → Type ℓ) {r : Result A} {a : A} → r ≡ ok a → OnOk P r → P a
OnOk-at P e h = subst (OnOk P) e h

pub OnOk-and_then {ℓ} :
    {A B : Type 0} (P : B → Type ℓ) (r : Result A) (f : A → Result B)
    → ((a : A) → r ≡ ok a → OnOk P (f a))
    → OnOk P (and_then r f)
OnOk-and_then P (ok a) f h = h a refl
OnOk-and_then P (raised e) f h = tt

pub OnOk-mono {ℓ κ} :
    {A : Type 0} (P : A → Type ℓ) (Q : A → Type κ) (r : Result A)
    → ((a : A) → P a → Q a)
    → OnOk P r
    → OnOk Q r
OnOk-mono P Q (ok a) f h = f a h
OnOk-mono P Q (raised e) f h = tt

module _ {S A B : Type 0} where
  OnOk-outcome {ℓ} :
      (P : B → Type ℓ) (f : A → Action S B) (x : Result A × S)
      → ((a : A) → x.0 ≡ ok a → OnOk P (f a x.1).0)
      → OnOk P (elim x.0 as (λ _. Result B × S) [ ok a ↦ f a x.1 | raised e ↦ (raised e, x.1) ]).0
  OnOk-outcome P f (ok a, s) h = h a refl
  OnOk-outcome P f (raised e, s) h = tt

  -- What holds after each continuation holds after the whole.
  pub OnOk-bind {ℓ} :
      (P : B → Type ℓ) (m : Action S A) (f : A → Action S B) (s : S)
      → ((a : A) → (m s).0 ≡ ok a → OnOk P (f a (m s).1).0)
      → OnOk P ((m >>= f) s).0
  OnOk-bind P m f s h = OnOk-outcome P f (m s) h

  -- Continuations that agree on what a statement returns agree after it.
  pub bind_agrees_on :
      (m : Action S A) (f h : A → Action S B) (s : S)
      → ((a : A) → (m s).0 ≡ ok a → f a (m s).1 ≡ h a (m s).1)
      → (m >>= f) s ≡ (m >>= h) s
  bind_agrees_on m f h s = outcome (m s)
    where
      outcome :
          (x : Result A × S)
          → ((a : A) → x.0 ≡ ok a → f a x.1 ≡ h a x.1)
          → elim x.0 as (λ _. Result B × S) [ ok a ↦ f a x.1 | raised e ↦ (raised e, x.1) ]
            ≡ elim x.0 as (λ _. Result B × S) [ ok a ↦ h a x.1 | raised e ↦ (raised e, x.1) ]
      outcome (ok a, s') same = same a refl
      outcome (raised e, s') same = refl
