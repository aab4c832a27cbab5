-- ===== src/Configuration/Contents.antt =====
-- What the mappings and sequences of stolos/configuration_backend keep of their data, and what their
-- `==` sees of it.
use mathlib.Core.Logic.{◌↔◌}
use mathlib.Core.Option
use stolos.Prelude.{
  ◌≡◌, refl, sym, ap, ◌∙◌, Bool, true, Option, none, some, List, [], ◌∷◌, arith, Text, text_eq_iff,
}
use stolos.Configuration.{
  Data, scalar, list, dict, Items, nil, cons, Fields, end, field, Built, BuiltItems, BuiltFields,
  built_scalar, built_list, built_dict, object, built_nil, built_cons, built_end, built_field, keys,
  same_keys, same_mapping, recurse_mapping, recurse_sequence, recurse_value, to_dict, same_sequence,
  same_value,
}

-- The data that something built is made of, with none where a wrapping object is left in it.
abbrev both : {A B C : Type 0} → (A → B → C) → Option A → Option B → Option C
both f (some a) (some b) = some (f a b)
both f _ _ = none

module _ {S : Type 0} where
  unfoldable mutual
    pub plain_fields : BuiltFields S → Option (Fields S)
    plain_fields built_end = some end
    plain_fields (built_field k v fs) = both (field k) (plain v) (plain_fields fs)

    pub plain_items : BuiltItems S → Option (Items S)
    plain_items built_nil = some nil
    plain_items (built_cons x xs) = both cons (plain x) (plain_items xs)

    pub plain : Built S → Option (Data S)
    plain (built_scalar s) = some (scalar s)
    plain (built_list xs) = Option.map list (plain_items xs)
    plain (built_dict fs) = Option.map dict (plain_fields fs)
    plain (object w) = none

  mutual
    unfolding recurse_mapping plain_fields

    plain-recurse_mapping : (fs : Fields S) → plain_fields (recurse_mapping fs) ≡ some fs
    plain-recurse_mapping end = refl
    plain-recurse_mapping (field k v fs) = rw (plain-recurse_value v, plain-recurse_mapping fs) refl

    plain-recurse_sequence : (xs : Items S) → plain_items (recurse_sequence xs) ≡ some xs
    plain-recurse_sequence nil = refl
    plain-recurse_sequence (cons x xs) = rw (plain-recurse_value x, plain-recurse_sequence xs) refl

    plain-recurse_value : (v : Data S) → plain (recurse_value v) ≡ some v
    plain-recurse_value (dict fs) = ap (Option.map dict) (plain-recurse_mapping fs)
    plain-recurse_value (list xs) = ap (Option.map list) (plain-recurse_sequence xs)
    plain-recurse_value (scalar s) = refl

same_keys_iff : (ks js : List Text) → (same_keys ks js ≡ true) ↔ (ks ≡ js)
same_keys_iff [] [] = ground arith
same_keys_iff [] (j ∷ js) = ground arith
same_keys_iff (k ∷ ks) [] = ground arith
same_keys_iff (k ∷ ks) (j ∷ js) = ground (arith, same_keys_iff ks js, text_eq_iff k j)

module _ {S : Type 0} where
  plain-to_dict : (fs : Fields S) → plain (to_dict fs) ≡ some (dict fs)
  unfolding plain_fields
  plain-to_dict fs = ap (Option.map dict) (plain-recurse_mapping fs)

  fields_of_dict :
      {fs gs : Fields S} → ◌≡◌ {A = Option (Data S)} (some (dict fs)) (some (dict gs)) → fs ≡ gs
  fields_of_dict e = cc e

  -- `==` of two mappings looks at their keys only: it holds exactly if the keys are the same in the
  -- same order. `to_dict` leaves no wrapping object at any depth: what it builds is made of exactly
  -- the data of the mapping, so it tells apart what `==` does not.
  pub same_mapping-to_dict :
      (fs gs : Fields S)
      → ((same_mapping fs gs ≡ true) ↔ (keys gs ≡ keys fs))
        × (plain (to_dict fs) ≡ some (dict fs))
        × ((to_dict fs ≡ to_dict gs) ↔ (fs ≡ gs))
  unfolding same_mapping
  same_mapping-to_dict fs gs = (
    same_keys_iff (keys gs) (keys fs),
    plain-to_dict fs,
    (
      λ e. fields_of_dict (sym (plain-to_dict fs) ∙ ap plain e ∙ plain-to_dict gs),
      λ e. ap to_dict e,
    ),
  )

module _ {S : Type 0} (same : S → S → Bool)
    (same_iff : (s t : S) → (same s t ≡ true) ↔ (s ≡ t)) where
  -- No mapping is nested in it.
  unfoldable mutual
    HasNoDict : Items S → Type 0
    HasNoDict nil = Unit
    HasNoDict (cons x xs) = IsNoDict x × HasNoDict xs

    IsNoDict : Data S → Type 0
    IsNoDict (scalar s) = Unit
    IsNoDict (list xs) = HasNoDict xs
    IsNoDict (dict fs) = ⊥

  mutual
    unfolding same_sequence HasNoDict

    same_items_iff :
        (xs ys : Items S) → HasNoDict xs → (same_sequence same xs ys ≡ true) ↔ (xs ≡ ys)
    same_items_iff nil nil h = ground arith
    same_items_iff nil (cons y ys) h = ground arith
    same_items_iff (cons x xs) nil h = ground arith
    same_items_iff (cons x xs) (cons y ys) h =
        ground (arith, same_value_iff x y h.0, same_items_iff xs ys h.1)

    same_value_iff : (x y : Data S) → IsNoDict x → (same_value same x y ≡ true) ↔ (x ≡ y)
    same_value_iff (scalar s) (scalar t) h = ground (arith, same_iff s t)
    same_value_iff (scalar s) (list ys) h = ground arith
    same_value_iff (scalar s) (dict gs) h = ground arith
    same_value_iff (list xs) (scalar t) h = ground arith
    same_value_iff (list xs) (list ys) h = ground (arith, same_items_iff xs ys h)
    same_value_iff (list xs) (dict gs) h = ground arith
    same_value_iff (dict fs) y h = absurd h

  -- A sequence in which no mapping is nested is `==` to another exactly if the two have the same data,
  -- where `==` on scalars decides equality.
  same_sequence_iff :
      (xs ys : Items S) → HasNoDict xs → (same_sequence same xs ys ≡ true) ↔ (xs ≡ ys)
  same_sequence_iff xs ys h = same_items_iff xs ys h
