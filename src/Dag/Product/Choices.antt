-- ===== src/Dag/Product/Choices.antt =====
-- Which lists `crossproduct` of stolos/util.py yields, for elements of any type.
use mathlib.Core.Logic.{◌↔◌}
use stolos.Prelude.{◌≡◌, refl, ap, ◌⊎◌, inl, inr, List, [], ◌∷◌, ◌++◌}
use stolos.Dag.Product.{prepend, combine, crossproduct}

-- An element of a list.
abbrev pub In : {A : Type 0} → A → List A → Type 0
In x [] = ⊥
In x (y ∷ ys) = (x ≡ y) ⊎ In x ys

module _ {A : Type 0} where
  -- One element of each list, in their order.
  abbrev pub Picks : List A → List (List A) → Type 0
  Picks [] [] = Unit
  Picks (x ∷ xs) (l ∷ ls) = In x l × Picks xs ls
  Picks _ _ = ⊥

  In-append_left : (v : List A) (a b : List (List A)) → In v a → In v (a ++ b)
  In-append_left v [] b h = absurd h
  In-append_left v (w ∷ a) b (inl e) = inl e
  In-append_left v (w ∷ a) b (inr h) = inr (In-append_left v a b h)

  In-append_right : (v : List A) (a b : List (List A)) → In v b → In v (a ++ b)
  In-append_right v [] b h = h
  In-append_right v (w ∷ a) b h = inr (In-append_right v a b h)

  In-append : (v : List A) (a b : List (List A)) → In v (a ++ b) → In v a ⊎ In v b
  In-append v [] b h = inr h
  In-append v (w ∷ a) b (inl e) = inl (inl e)
  In-append v (w ∷ a) b (inr h) = elim (In-append v a b h) [ inl l ↦ inl (inr l) | inr r ↦ inr r ]

  In-prepend : (x : A) (v : List A) (ws : List (List A)) → In v ws → In (x ∷ v) (prepend x ws)
  In-prepend x v [] h = absurd h
  In-prepend x v (w ∷ ws) (inl e) = inl (ap (◌∷◌ x) e)
  In-prepend x v (w ∷ ws) (inr h) = inr (In-prepend x v ws h)

  prepend-In :
      (i : A) (c : List A) (ws : List (List A))
      → In c (prepend i ws)
      → (v : List A) × (c ≡ i ∷ v) × In v ws
  prepend-In i c [] h = absurd h
  prepend-In i c (w ∷ ws) (inl e) = (w, e, inl refl)
  prepend-In i c (w ∷ ws) (inr h) = let (v, e, there) = prepend-In i c ws h in (v, e, inr there)

  In-combine :
      (x : A) (v items : List A) (ws : List (List A))
      → In x items
      → In v ws
      → In (x ∷ v) (combine items ws)
  In-combine x v [] ws h there = absurd h
  In-combine x v (i ∷ items) ws (inl e) there =
      rw e (In-append_left (i ∷ v) (prepend i ws) (combine items ws) (In-prepend i v ws there))
  In-combine x v (i ∷ items) ws (inr h) there =
      In-append_right (x ∷ v) (prepend i ws) (combine items ws) (In-combine x v items ws h there)

  combine-In :
      (c items : List A) (ws : List (List A))
      → In c (combine items ws)
      → (x : A) × (v : List A) × (c ≡ x ∷ v) × In x items × In v ws
  combine-In c [] ws h = absurd h
  combine-In c (i ∷ items) ws h = elim (In-append c (prepend i ws) (combine items ws) h) [
    | inl l ↦ let (v, e, there) = prepend-In i c ws l in (i, v, e, inl refl, there)
    | inr r ↦ let (x, v, e, here, there) = combine-In c items ws r in (x, v, e, inr here, there)
  ]

  crossproduct-Picks : (c : List A) (ls : List (List A)) → In c (crossproduct ls) → Picks c ls
  unfolding crossproduct
  crossproduct-Picks c [] (inl e) = rw e tt
  crossproduct-Picks c [] (inr h) = absurd h
  crossproduct-Picks c (l ∷ ls) h =
      let (x, v, e, here, there) = combine-In c l (crossproduct ls) h in
      rw e (here, crossproduct-Picks v ls there)

  Picks-crossproduct : (c : List A) (ls : List (List A)) → Picks c ls → In c (crossproduct ls)
  unfolding crossproduct
  Picks-crossproduct [] [] h = inl refl
  Picks-crossproduct [] (l ∷ ls) h = absurd h
  Picks-crossproduct (x ∷ c) [] h = absurd h
  Picks-crossproduct (x ∷ c) (l ∷ ls) h =
      In-combine x c l (crossproduct ls) h.0 (Picks-crossproduct c ls h.1)

  -- `crossproduct` yields exactly the lists that take one element of each list, in order.
  pub In-crossproduct_iff : (c : List A) (ls : List (List A)) → In c (crossproduct ls) ↔ Picks c ls
  In-crossproduct_iff c ls = (crossproduct-Picks c ls, Picks-crossproduct c ls)
