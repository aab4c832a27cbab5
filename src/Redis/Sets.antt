-- ===== src/Redis/Sets.antt =====
-- The rest of the redis server that the scripts of class LockingQueue in
-- stolos/queue_backend/qbcli_redis.py use: sorted sets and counters, beside the string keys. It
-- is a parameter too. Scores are whole numbers: the scripts in use only add 0 and 1 to them. A
-- law on a write to a sorted set has the premise that its key holds no string.
pub mod Memory
use stolos.Prelude.{
  ℕ, ◌+◌, ◌≡◌, false, Option, none, some, List, ◌&&◌, Text, text_eq, leb, is_some, if◌then◌else◌,
  length, mem_text,
}
use stolos.Redis.Keys.{Keys, expired}

abbrev pub or_zero : Option ℕ → ℕ
or_zero none = 0
or_zero (some n) = n

pub record Redis : Type 1 where
  pub keys : Keys
  pub open keys use *
  -- ZSCORE, ZRANGE 0 -1, ZCARD, ZINCRBY, ZREM
  pub zscore : Store → Text → Text → Option ℕ
  pub zrange : Store → Text → List Text
  pub zcard : Store → Text → ℕ
  pub zincrby : Text → ℕ → Text → Store → Store
  pub zrem : Text → Text → Store → Store
  -- INCRBY, and the number that a counter holds, 0 where the key is missing
  pub counter : Store → Text → ℕ
  pub incrby : Text → ℕ → Store → ℕ × Store
  pub zrange-mem : (s : Store) (q m : Text) → mem_text m (zrange s q) ≡ is_some (zscore s q m)
  pub zcard_lem : (s : Store) (q : Text) → zcard s q ≡ length (zrange s q)
  pub now-zincrby : (q : Text) (d : ℕ) (m : Text) (s : Store) → now (zincrby q d m s) ≡ now s
  pub get-zincrby :
      (q : Text) (d : ℕ) (m : Text) (s : Store) (j : Text) → get (zincrby q d m s) j ≡ get s j
  pub deadline-zincrby :
      (q : Text) (d : ℕ) (m : Text) (s : Store) (j : Text)
      → deadline (zincrby q d m s) j ≡ deadline s j
  pub counter-zincrby :
      (q : Text) (d : ℕ) (m : Text) (s : Store) (j : Text)
      → counter (zincrby q d m s) j ≡ counter s j
  pub zscore-zincrby :
      (q : Text) (d : ℕ) (m : Text) (s : Store) (q' m' : Text)
      → get s q ≡ none
      → zscore (zincrby q d m s) q' m' ≡ (
          if text_eq q q' && text_eq m m'
          then some (or_zero (zscore s q m) + d)
          else zscore s q' m')
  pub now-zrem : (q m : Text) (s : Store) → now (zrem q m s) ≡ now s
  pub get-zrem : (q m : Text) (s : Store) (j : Text) → get (zrem q m s) j ≡ get s j
  pub deadline-zrem : (q m : Text) (s : Store) (j : Text) → deadline (zrem q m s) j ≡ deadline s j
  pub counter-zrem : (q m : Text) (s : Store) (j : Text) → counter (zrem q m s) j ≡ counter s j
  pub zscore-zrem :
      (q m : Text) (s : Store) (q' m' : Text)
      → get s q ≡ none
      → zscore (zrem q m s) q' m' ≡ (if text_eq q q' && text_eq m m' then none else zscore s q' m')
  -- A write to a string key replaces what stood there.
  pub zscore-set :
      (k v : Text) (s : Store) (q m : Text)
      → zscore (set k v s) q m ≡ (if text_eq k q then none else zscore s q m)
  pub counter-set :
      (k v : Text) (s : Store) (j : Text)
      → text_eq k j ≡ false
      → counter (set k v s) j ≡ counter s j
  pub zscore-expireat :
      (k : Text) (t : ℕ) (s : Store) (q m : Text)
      → zscore (expireat k t s).1 q m
        ≡ (if text_eq k q && leb t (now s) then none else zscore s q m)
  pub counter-expireat :
      (k : Text) (t : ℕ) (s : Store) (j : Text)
      → text_eq k j ≡ false
      → counter (expireat k t s).1 j ≡ counter s j
  pub zscore-persist : (k : Text) (s : Store) (q m : Text) → zscore (persist k s) q m ≡ zscore s q m
  pub counter-persist : (k : Text) (s : Store) (j : Text) → counter (persist k s) j ≡ counter s j
  pub zscore-del :
      (k : Text) (s : Store) (q m : Text)
      → zscore (del k s).1 q m ≡ (if text_eq k q then none else zscore s q m)
  pub incrby-reply : (k : Text) (d : ℕ) (s : Store) → (incrby k d s).0 ≡ counter s k + d
  pub now-incrby : (k : Text) (d : ℕ) (s : Store) → now (incrby k d s).1 ≡ now s
  pub counter-incrby :
      (k : Text) (d : ℕ) (s : Store) (j : Text)
      → counter (incrby k d s).1 j ≡ (if text_eq k j then counter s k + d else counter s j)
  pub get-incrby :
      (k : Text) (d : ℕ) (s : Store) (j : Text)
      → text_eq k j ≡ false
      → get (incrby k d s).1 j ≡ get s j
  pub deadline-incrby :
      (k : Text) (d : ℕ) (s : Store) (j : Text) → deadline (incrby k d s).1 j ≡ deadline s j
  pub zscore-incrby :
      (k : Text) (d : ℕ) (s : Store) (q m : Text)
      → text_eq k q ≡ false
      → zscore (incrby k d s).1 q m ≡ zscore s q m
