-- ===== src/Redis/Sets/Memory.antt =====
-- A server in memory with sorted sets and counters: the assumptions can be met together.
use stolos.Prelude.{
  ℕ, ◌+◌, ◌≡◌, refl, Bool, true, false, none, some, List, [], ◌∷◌, arith, ◌&&◌, Text, text_eq,
  text_eq_iff, leb, is_some, if◌then◌else◌, Dict, lookup, insert, lookup-insert, length, mem_text,
}
use stolos.Redis.Keys.{Keys}
use stolos.Redis.Keys.Memory.{Table, no_keys, memory}
use stolos.Redis.Sets.{Redis, or_zero}

pub record Tables : Type 0 where
  pub table : Table
  pub sets : Text → Dict ℕ
  pub counters : Text → ℕ

abbrev pub no_tables : ℕ → Tables
no_tables t = record { table = no_keys t; sets = λ _. []; counters = λ _. 0 }

-- Every entry of a key goes.
abbrev pub without : Text → Dict ℕ → Dict ℕ
without k [] = []
without k ((j, v) ∷ d) = let rest = without k d in if text_eq k j then rest else (j, v) ∷ rest

lookup-without :
    (k j : Text) (d : Dict ℕ) → lookup j (without k d) ≡ (if text_eq k j then none else lookup j d)
lookup-without k j [] = ground arith
lookup-without k j ((i, v) ∷ d) =
    ground (arith, lookup-without k j d, text_eq_iff k i, text_eq_iff j i, text_eq_iff k j)

abbrev pub members : Dict ℕ → List Text
members [] = []
members ((m, _) ∷ d) = m ∷ members d

pub members-mem : (m : Text) (d : Dict ℕ) → mem_text m (members d) ≡ is_some (lookup m d)
members-mem m [] = refl
members-mem m ((j, v) ∷ d) = ground (arith, members-mem m d)

abbrev pub drop_set : Text → Bool → (Text → Dict ℕ) → Text → Dict ℕ
drop_set k gone sets q = if text_eq k q && gone then [] else sets q

abbrev on_keys : (Table → Table) → Tables → Tables
on_keys f s = record s { table = f s.table }

abbrev set : Text → Text → Tables → Tables
set k v s = record s { table = memory.set k v s.table; sets = drop_set k true s.sets }

abbrev keys : Keys
keys = record {
  Store = Tables;
  now = λ s. s.table.now;
  get = λ s. s.table.values;
  deadline = λ s. s.table.deadlines;
  elapse = λ d. on_keys (memory.elapse d);
  set = set;
  set_nx = λ k v s. if is_some (s.table.values k) then (false, s) else (true, set k v s);
  set_xx = λ k v s. if is_some (s.table.values k) then (true, set k v s) else (false, s);
  expireat = λ k t s. (
    (memory.expireat k t s.table).0,
    record s {
      table = (memory.expireat k t s.table).1;
      sets = drop_set k (leb t s.table.now) s.sets;
    },
  );
  persist = λ k. on_keys (memory.persist k);
  del = λ k s. (
    (memory.del k s.table).0,
    record s { table = (memory.del k s.table).1; sets = drop_set k true s.sets },
  );
  now-elapse = λ d s. refl;
  get-elapse = λ d s j. refl;
  deadline-elapse = λ d s j. refl;
  now-set = λ k v s. refl;
  get-set = λ k v s j. refl;
  deadline-set = λ k v s j. refl;
  set_nx_lem = λ k v s. refl;
  set_xx_lem = λ k v s. refl;
  now-expireat = λ k t s. refl;
  expireat-reply = λ k t s. refl;
  get-expireat = λ k t s j. refl;
  deadline-expireat = λ k t s j. refl;
  now-persist = λ k s. refl;
  get-persist = λ k s j. refl;
  deadline-persist = λ k s j. refl;
  now-del = λ k s. refl;
  del-reply = λ k s. refl;
  get-del = λ k s j. refl;
  deadline-del = λ k s j. refl;
}

abbrev pub zincrby : Text → ℕ → Text → Tables → Tables
zincrby q d m s = record s {
  sets = λ q'.
      if text_eq q q' then insert m (or_zero (lookup m (s.sets q)) + d) (s.sets q) else s.sets q';
}

abbrev pub zrem : Text → Text → Tables → Tables
zrem q m s = record s { sets = λ q'. if text_eq q q' then without m (s.sets q) else s.sets q' }

abbrev incrby : Text → ℕ → Tables → ℕ × Tables
incrby k d s = (
  s.counters k + d,
  record s { counters = λ j. if text_eq k j then s.counters k + d else s.counters j },
)

pub zscore-zincrby :
    (q : Text) (d : ℕ) (m : Text) (s : Tables) (q' m' : Text)
    → s.table.values q ≡ none
    → lookup m' ((zincrby q d m s).sets q') ≡ (
        if text_eq q q' && text_eq m m'
        then some (or_zero (lookup m (s.sets q)) + d)
        else lookup m' (s.sets q'))
zscore-zincrby q d m s q' m' _ =
    ground
      (arith, lookup-insert m m' (or_zero (lookup m (s.sets q)) + d) (s.sets q), text_eq_iff q q')

pub zscore-zrem :
    (q m : Text) (s : Tables) (q' m' : Text)
    → s.table.values q ≡ none
    → lookup m' ((zrem q m s).sets q')
      ≡ (if text_eq q q' && text_eq m m' then none else lookup m' (s.sets q'))
zscore-zrem q m s q' m' _ = ground (arith, lookup-without m m' (s.sets q), text_eq_iff q q')

pub zscore-drop :
    (k : Text) (gone : Bool) (sets : Text → Dict ℕ) (q m : Text)
    → lookup m (drop_set k gone sets q) ≡ (if text_eq k q && gone then none else lookup m (sets q))
zscore-drop k gone sets q m = ground arith

pub zscore-drop_all :
    (k : Text) (sets : Text → Dict ℕ) (q m : Text)
    → lookup m (drop_set k true sets q) ≡ (if text_eq k q then none else lookup m (sets q))
zscore-drop_all k sets q m = ground arith

abbrev pub server : Redis
server = record {
  keys = keys;
  zscore = λ s q m. lookup m (s.sets q);
  zrange = λ s q. members (s.sets q);
  zcard = λ s q. length (members (s.sets q));
  zincrby = zincrby;
  zrem = zrem;
  counter = λ s. s.counters;
  incrby = incrby;
  zrange-mem = λ s q m. members-mem m (s.sets q);
  zcard_lem = λ s q. refl;
  zscore-zincrby = zscore-zincrby;
  zscore-zrem = zscore-zrem;
  zscore-set = λ k v s q m. zscore-drop_all k s.sets q m;
  zscore-expireat = λ k t s q m. zscore-drop k (leb t s.table.now) s.sets q m;
  zscore-del = λ k s q m. zscore-drop_all k s.sets q m;
  now-zincrby = λ q d m s. refl;
  get-zincrby = λ q d m s j. refl;
  deadline-zincrby = λ q d m s j. refl;
  counter-zincrby = λ q d m s j. refl;
  now-zrem = λ q m s. refl;
  get-zrem = λ q m s j. refl;
  deadline-zrem = λ q m s j. refl;
  counter-zrem = λ q m s j. refl;
  counter-set = λ k v s j _. refl;
  counter-expireat = λ k t s j _. refl;
  zscore-persist = λ k s q m. refl;
  counter-persist = λ k s j. refl;
  incrby-reply = λ k d s. refl;
  now-incrby = λ k d s. refl;
  counter-incrby = λ k d s j. refl;
  get-incrby = λ k d s j _. refl;
  deadline-incrby = λ k d s j. refl;
  zscore-incrby = λ k d s q m _. refl;
}
