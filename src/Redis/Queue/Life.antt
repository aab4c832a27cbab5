-- ===== src/Redis/Queue/Life.antt =====
-- The life of one item: what class LockingQueue in stolos/queue_backend/qbcli_redis.py promises of
-- it, as a state machine whose steps are calls of the methods. The machine knows nothing of the keys
-- on the server; `view` reads its state off them.
pub mod Gets
pub mod Steps
pub mod Forever
use mathlib.Core.Path.{subst}
use stolos.Prelude.{
  ℕ, ◌+◌, ◌≤◌, ◌<◌, ◌≡◌, ◌≢◌, refl, ◌∙◌, ap, sym, Bool, true, false, Option, none, some, List, [],
  ◌∷◌, arith, Text, text_eq, text_eq_iff, text_eq_self, text_eq_ne, leb, ltb, leb→le, ltb→lt,
  lookup, erase, ◌||◌, is_some, if◌then◌else◌, inl, inr, Bool-cases, Option-cases,
}
use stolos.Redis.Keys.{expired}
use stolos.Redis.Sets.{Redis}
use stolos.Redis.Lock.{is_value, is_value_iff}
use stolos.Redis.Lock.Frame.{Keeps, Keeps-refl, Keeps-trans, set-Keeps, expireat-Keeps}
use stolos.Redis.Scripts.{completed, lq_put, lq_get, take_first, lq_extend_lock, lq_consume}
use stolos.Redis.Queue.{
  LockingQueue, q_lookup, put, consume, pop_and_consume, get_item, finish_consume, after_get,
}
use stolos.Redis.Queue.Frame.{zincrby-Keeps, zrem-Keeps, persist-Keeps, incrby-Keeps, lq_put-Keeps}
use stolos.Redis.Queue.Moves.{
  Move, gets, consumes, puts, extends, waits, apply, run, after_get_store, finish_consume_store,
}

-- Nobody holds the item, or a client does until a deadline, or it was consumed.
pub data Item : Type 0 where
  free : Item
  leased : (client_id : Text) → Option ℕ → Item
  finished : Option ℕ → Item

abbrev pub until : Item → Option ℕ
until free = none
until (leased c d) = d
until (finished d) = d

-- The steps of the item with hashed key `p`, at the time `t`.
pub data Step (p : Text) (t : ℕ) : Move → Item → Item → Type 0 where
  stay : (m : Move) (x : Item) → Step p t m x x
  take :
      (clock : ℕ) (q : LockingQueue)
      → t < clock + q.lock_timeout
      → Step p t (gets clock q) free (leased q.client_id (some (clock + q.lock_timeout)))
  finish :
      (q : LockingQueue) (c : Text) (d : Option ℕ)
      → c ≡ q.client_id
      → Step p t (consumes q) (leased c d) (finished none)
  settle : (q : LockingQueue) (d : Option ℕ) → Step p t (consumes q) (finished d) (finished none)
  extend :
      (e : ℕ) (k c : Text) (q : LockingQueue) (d : Option ℕ)
      → k ≡ p
      → c ≡ q.client_id
      → t < e
      → Step p t (extends e k q) (leased c d) (leased c (some e))
  drop :
      (e : ℕ) (k c : Text) (q : LockingQueue) (d : Option ℕ)
      → k ≡ p
      → c ≡ q.client_id
      → e ≤ t
      → Step p t (extends e k q) (leased c d) free
  expire : (n : ℕ) (x : Item) → expired (until x) (t + n) ≡ true → Step p t (waits n) x free

-- No client has the id "completed", and no counter the key of the item.
abbrev pub IsProper : Text → Move → Type 0
IsProper p (gets clock q) = q.client_id ≢ completed
IsProper p (consumes q) = (q.client_id ≢ completed) × (text_eq (q_lookup q) p ≡ false)
IsProper p (extends e k q) = q.client_id ≢ completed
IsProper p _ = Unit

abbrev pub item_at : Option Text → Option ℕ → Item
item_at none d = free
item_at (some v) d = if text_eq v completed then finished d else leased v d

pub leased_at : (c : Text) (d : Option ℕ) → c ≢ completed → item_at (some c) d ≡ leased c d
leased_at c d other = rw (text_eq_ne c completed other) refl

pub until_item :
    (v : Text) (d : Option ℕ) (t : ℕ) → expired (until (item_at (some v) d)) t ≡ expired d t
until_item v d t = ground arith

module _ (r : Redis) (p : Text) where
  open r use {
    Store, keys, now, get, deadline, elapse, set, set_nx_lem, get-set, deadline-set, now-set,
    expireat, get-expireat, deadline-expireat, get-elapse, deadline-elapse, zincrby, get-zincrby,
    deadline-zincrby, persist, zrem, incrby, get-persist, deadline-persist, get-zrem, deadline-zrem,
    get-incrby, deadline-incrby,
  }

  -- What the server keeps of the item.
  abbrev pub view : Store → Item
  view s = item_at (get s p) (deadline s p)

  module _ (m : Move) (s : Store) where
    pub Step-at :
        {g g' : Option Text} {d d' : Option ℕ} (s' : Store)
        → get s p ≡ g
        → deadline s p ≡ d
        → get s' p ≡ g'
        → deadline s' p ≡ d'
        → Step p (now s) m (item_at g d) (item_at g' d')
        → Step p (now s) m (view s) (view s')
    Step-at s' eg ed eg' ed' step = rw (eg, ed, eg', ed') step

    pub Step-keeps : (s' : Store) → Keeps keys p s s' → Step p (now s) m (view s) (view s')
    Step-keeps s' kept = rw (kept.same_value, kept.same_deadline) (stay m (view s))
