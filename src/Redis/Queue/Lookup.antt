-- ===== src/Redis/Queue/Lookup.antt =====
-- What `LockingQueue.is_queued` of stolos/queue_backend/qbcli_redis.py finds: its script compares
-- the end of each hashed key with the item.
use stolos.Prelude.{
  ℕ, suc, ◌-◌, ◌≡◌, refl, true, false, none, List, [], ◌∷◌, ◌++◌, arith, Text, text_eq_iff,
  text_eq_self, mem_text, length, length-append, ◌||◌,
}
use stolos.Redis.Sets.{Redis}
use stolos.Redis.Lock.{is_value}
use stolos.Redis.Scripts.{completed, drop, lua_tail, Standing, find_item, lq_is_queued_item}
use stolos.Redis.Queue.{LockingQueue, is_queued}

drop-append : (p v : Text) → drop (length p) (p ++ v) ≡ v
drop-append [] v = refl
drop-append (c ∷ p) v = drop-append p v

lua_tail-append : (p : Text) (c : ℕ) (cs : Text) → lua_tail (p ++ c ∷ cs) (length (c ∷ cs)) ≡ c ∷ cs
unfolding lua_tail
lua_tail-append p c cs =
    let e : length (p ++ c ∷ cs) - suc (length cs) ≡ length p =
      omega (arith, length-append {0} p (c ∷ cs)) in
    rw e (drop-append p (c ∷ cs))

module _ (r : Redis) where
  open r use {Store, get, zrange, zincrby, zrange-mem, zscore-zincrby, get-zincrby}

  -- No member is marked as completed.
  abbrev pub AreRunning : List Text → Store → Type 0
  AreRunning [] s = Unit
  AreRunning (k ∷ ks) s = (is_value (get s k) completed ≡ false) × AreRunning ks s

  abbrev Found : Standing → Type 0
  Found a = (a.taken || a.queued) ≡ true

  find_item_suffix :
      (p : Text) (c : ℕ) (cs : Text) (ks : List Text) (s : Store)
      → AreRunning ks s
      → mem_text (p ++ c ∷ cs) ks ≡ true
      → Found (find_item r (c ∷ cs) ks s)
  unfolding find_item
  find_item_suffix p c cs [] s run m = cc
  find_item_suffix p c cs (k ∷ ks) s run m = ground (
    arith,
    find_item_suffix p c cs ks s run.1,
    text_eq_iff (p ++ c ∷ cs) k,
    lua_tail-append p c cs,
    text_eq_self (c ∷ cs),
  )

  -- An object that holds no item finds a value that is not empty whenever the queue lists a
  -- hashed key that ends in it, while no member of the queue is marked as completed: so every
  -- item of the queue is found, but a value that was never put is found too, where a longer value
  -- ends in it.
  pub is_queued_suffix :
      (p : Text) (c : ℕ) (cs : Text) (q : LockingQueue) (s : Store)
      → q.item ≡ none
      → AreRunning (zrange s q.path) s
      → mem_text (p ++ c ∷ cs) (zrange s q.path) ≡ true
      → is_queued r (c ∷ cs) q s ≡ true
  unfolding is_queued lq_is_queued_item
  is_queued_suffix p c cs q s idle run m =
      rw idle (find_item_suffix p c cs (zrange s q.path) s run m)
