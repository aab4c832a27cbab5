-- ===== src/Configuration.antt =====
-- stolos/configuration_backend: the tasks configuration as mappings and sequences. The data of
-- json_config.py is what simplejson reads: dicts, lists, and scalars (texts, numbers, true, false,
-- null), which are a parameter with their `==`. A mapping or a sequence of tasks_config_base.py wraps
-- its data, and wraps what is inside when it is asked for it. A key stands in a dict once.
pub mod Contents
pub mod RedisConfig
mod Examples
use stolos.Prelude.{Bool, true, false, ◌&&◌, List, [], ◌∷◌, Text, text_eq}

mutual
  pub data Data (S : Type 0) : Type 0 where
    scalar : S → Data S
    list : Items S → Data S
    dict : Fields S → Data S

  pub data Items (S : Type 0) : Type 0 where
    nil : Items S
    cons : Data S → Items S → Items S

  pub data Fields (S : Type 0) : Type 0 where
    end : Fields S
    field : Text → Data S → Fields S → Fields S

-- What `__getitem__` returns: a JSONSequence with its data, a JSONMapping, or the value as it is.
pub data Wrapped (S : Type 0) : Type 0 where
  as_is : Data S → Wrapped S
  sequence : Items S → Wrapped S
  mapping : Fields S → Wrapped S

-- What `to_dict` and `to_list` build: dicts, lists and scalars, in which an object that wraps data
-- could be left.
mutual
  pub data Built (S : Type 0) : Type 0 where
    built_scalar : S → Built S
    built_list : BuiltItems S → Built S
    built_dict : BuiltFields S → Built S
    object : Wrapped S → Built S

  pub data BuiltItems (S : Type 0) : Type 0 where
    built_nil : BuiltItems S
    built_cons : Built S → BuiltItems S → BuiltItems S

  pub data BuiltFields (S : Type 0) : Type 0 where
    built_end : BuiltFields S
    built_field : Text → Built S → BuiltFields S → BuiltFields S

abbrev pub same_keys : (ks js : List Text) → Bool
same_keys [] [] = true
same_keys (k ∷ ks) (j ∷ js) = text_eq k j && same_keys ks js
same_keys _ _ = false

module _ {S : Type 0} where
  -- `_ensure_type(value, JSONMapping, JSONSequence)`
  unfoldable pub ensure_type : Data S → Wrapped S
  ensure_type (list xs) = sequence xs
  ensure_type (dict fs) = mapping fs
  ensure_type (scalar s) = as_is (scalar s)

  -- `list(mapping)`: its keys
  abbrev pub keys : Fields S → List Text
  keys end = []
  keys (field k v fs) = k ∷ keys fs

  -- `TasksConfigBaseMapping.__eq__` of two mappings: `list(other) == list(self)`
  unfoldable pub same_mapping : (self other : Fields S) → Bool
  same_mapping self other = same_keys (keys other) (keys self)

  -- `_recursem` and `_recursel`: iterating gives the elements as `ensure_type` wraps them, so a dict
  -- comes as a mapping and a list as a sequence, and each is recursed into.
  unfoldable mutual
    pub recurse_mapping : Fields S → BuiltFields S
    recurse_mapping end = built_end
    recurse_mapping (field k v fs) = built_field k (recurse_value v) (recurse_mapping fs)

    pub recurse_sequence : Items S → BuiltItems S
    recurse_sequence nil = built_nil
    recurse_sequence (cons x xs) = built_cons (recurse_value x) (recurse_sequence xs)

    pub recurse_value : Data S → Built S
    recurse_value (dict fs) = built_dict (recurse_mapping fs)
    recurse_value (list xs) = built_list (recurse_sequence xs)
    recurse_value (scalar s) = built_scalar s

  -- `to_dict` of a mapping and `to_list` of a sequence
  abbrev pub to_dict : Fields S → Built S
  to_dict fs = built_dict (recurse_mapping fs)

  abbrev pub to_list : Items S → Built S
  to_list xs = built_list (recurse_sequence xs)

-- `==` on what `__getitem__` returns, with `TasksConfigBaseSequence.__eq__`, over a `==` of scalars
-- that is symmetric. A mapping, a sequence and a scalar differ.
module _ {S : Type 0} (same : S → S → Bool) where
  unfoldable mutual
    unfolding same_mapping

    pub same_sequence : (self other : Items S) → Bool
    same_sequence nil nil = true
    same_sequence (cons x xs) (cons y ys) = same_value x y && same_sequence xs ys
    same_sequence _ _ = false

    pub same_value : (self other : Data S) → Bool
    same_value (scalar s) (scalar t) = same s t
    same_value (list xs) (list ys) = same_sequence xs ys
    same_value (dict fs) (dict gs) = same_mapping fs gs
    same_value _ _ = false
