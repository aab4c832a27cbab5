-- ===== src/Configuration/RedisConfig.antt =====
-- stolos/configuration_backend/redis_config.py: class RedisMapping, over a redis server that is a
-- parameter. `eval` of the fields of a hash is a parameter too.
use stolos.Prelude.{
  ◌≡◌, refl, ap, true, false, Option, none, some, List, [], ◌∷◌, ◌++◌, arith, Text, Dict, lookup,
  insert, text_eq, text_eq_iff, starts_with, inl, inr, Bool-cases,
}
use stolos.Jobs.Actions.{Result, ok, raised, key_error}
use stolos.Configuration.{dict, Fields, Wrapped, ensure_type}

-- HGETALL, which is empty for a missing key, KEYS with a pattern `prefix*`, and `eval`
pub record Client (S : Type 0) : Type 1 where
  pub Server : Type 0
  pub hgetall : Text → Server → Dict Text
  pub keys_from : (prefix : Text) → Server → List Text
  pub evaluate : Dict Text → Result (Fields S)

pub record RedisMapping (S : Type 0) : Type 0 where
  pub redis_key_prefix : Text
  pub cache : Dict (Wrapped S)

module _ {S : Type 0} (cli : Client S) where
  open cli use {Server, hgetall, keys_from, evaluate}

  -- `RedisMapping()`
  abbrev pub fresh : Text → RedisMapping S
  fresh prefix = record { redis_key_prefix = prefix; cache = [] }

  -- the value of a hash that is there
  unfoldable pub decode : Dict Text → Result (Wrapped S)
  unfolding ensure_type
  decode [] = raised key_error
  decode (e ∷ hash) = elim (evaluate (e ∷ hash)) [
    | ok fs ↦ ok (ensure_type (dict fs))
    | raised e ↦ raised e
  ]

  abbrev pub cached :
      Text → RedisMapping S → Result (Wrapped S) → Result (Wrapped S) × RedisMapping S
  cached key self (ok v) = (ok v, record self { cache = insert key v self.cache })
  cached key self (raised e) = (raised e, self)

  abbrev pub or_fetch :
      Text → RedisMapping S → Server → Option (Wrapped S) → Result (Wrapped S) × RedisMapping S
  unfolding decode
  or_fetch key self server (some v) = (ok v, self)
  or_fetch key self server none =
      let full = self.redis_key_prefix ++ key in cached full self (decode (hgetall full server))

  -- `__getitem__`
  unfoldable pub get_item : Text → RedisMapping S → Server → Result (Wrapped S) × RedisMapping S
  unfolding or_fetch
  get_item key self server = or_fetch key self server (lookup key self.cache)

  abbrev pub with_key :
      Text → Result (Wrapped S) → Result (Dict (Wrapped S)) → Result (Dict (Wrapped S))
  with_key key (ok v) (ok rest) = ok ((key, v) ∷ rest)
  with_key key (ok v) (raised e) = raised e
  with_key key (raised e) rest = raised e

  -- `[(key, self[key]) for key in keys]`
  unfoldable pub items_at : List Text → RedisMapping S → Server → Result (Dict (Wrapped S))
  unfolding get_item
  items_at [] self server = ok []
  items_at (key ∷ keys) self server =
      let (v, self') = get_item key self server in with_key key v (items_at keys self' server)

  -- `__iter__`, and `items()` of collections.Mapping
  abbrev pub iter : RedisMapping S → Server → List Text
  iter self server = keys_from self.redis_key_prefix server

  unfoldable pub items : RedisMapping S → Server → Result (Dict (Wrapped S))
  unfolding items_at
  items self server = items_at (iter self server) self server

  -- The cache holds keys with the prefix.
  abbrev pub AllPrefixed : Text → Dict (Wrapped S) → Type 0
  AllPrefixed prefix [] = Unit
  AllPrefixed prefix ((k, v) ∷ cache) = (starts_with prefix k ≡ true) × AllPrefixed prefix cache

  lookup-AllPrefixed :
      (prefix key : Text) (cache : Dict (Wrapped S))
      → AllPrefixed prefix cache
      → starts_with prefix key ≡ false
      → lookup key cache ≡ none
  lookup-AllPrefixed prefix key [] h apart = refl
  lookup-AllPrefixed prefix key ((k, v) ∷ cache) h apart =
      let other : text_eq key k ≡ false =
        ground (arith, text_eq_iff key k, ap (starts_with prefix), h.0) in
      rw other (lookup-AllPrefixed prefix key cache h.1 apart)

  starts_with-append : (prefix key : Text) → starts_with prefix (prefix ++ key) ≡ true
  starts_with-append [] key = refl
  starts_with-append (c ∷ prefix) key = ground (arith, starts_with-append prefix key)

  insert-AllPrefixed :
      (prefix k : Text) (v : Wrapped S) (cache : Dict (Wrapped S))
      → starts_with prefix k ≡ true
      → AllPrefixed prefix cache
      → AllPrefixed prefix (insert k v cache)
  insert-AllPrefixed prefix k v [] s h = (s, tt)
  insert-AllPrefixed prefix k v ((j, w) ∷ cache) s h = elim (Bool-cases (text_eq k j)) [
    | inl here ↦ rw here (h.0, h.1)
    | inr away ↦ rw away (h.0, insert-AllPrefixed prefix k v cache s h.1)
  ]

  cached-AllPrefixed :
      (full : Text) (self : RedisMapping S) (r : Result (Wrapped S))
      → starts_with self.redis_key_prefix full ≡ true
      → AllPrefixed self.redis_key_prefix self.cache
      → AllPrefixed self.redis_key_prefix (cached full self r).1.cache
  cached-AllPrefixed full self (ok v) s h =
      insert-AllPrefixed self.redis_key_prefix full v self.cache s h
  cached-AllPrefixed full self (raised e) s h = h

  cached_value :
      (full : Text) (self : RedisMapping S) (r : Result (Wrapped S)) → (cached full self r).0 ≡ r
  cached_value full self (ok v) = refl
  cached_value full self (raised e) = refl

  -- For a key without the prefix, `__getitem__` gives what the server holds now at the prefix and the
  -- key, whatever was fetched before: what it puts into the cache are keys with the prefix.
  pub get_item_uncached :
      (key : Text) (self : RedisMapping S) (server : Server)
      → AllPrefixed self.redis_key_prefix self.cache
      → starts_with self.redis_key_prefix key ≡ false
      → let (value, self') = get_item key self server in
        (value ≡ decode (hgetall (self.redis_key_prefix ++ key) server))
        × AllPrefixed self.redis_key_prefix self'.cache
  unfolding get_item
  get_item_uncached key self server h apart =
      let full = self.redis_key_prefix ++ key in
      let r = decode (hgetall full server) in
      rw (lookup-AllPrefixed self.redis_key_prefix key self.cache h apart) (
        cached_value full self r,
        cached-AllPrefixed full self r (starts_with-append self.redis_key_prefix key) h,
      )
