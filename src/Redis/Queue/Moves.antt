-- ===== src/Redis/Queue/Moves.antt =====
-- Calls of class LockingQueue in stolos/queue_backend/qbcli_redis.py in any order, by any clients, and
-- the passing of time.
use stolos.Prelude.{
  ℕ, ◌+◌, ◌≡◌, ◌≢◌, refl, false, Option, none, some, List, [], ◌∷◌, arith, Text, text_eq,
}
use stolos.Redis.Sets.{Redis}
use stolos.Redis.Scripts.{Reply, int, bulk, queue_empty, already_locked, lq_extend_lock}
use stolos.Redis.Queue.{
  LockingQueue, q_lookup, put, consume, get_item, after_get, unpack, finish_consume,
}

-- Calls of the methods of queue objects, `_extend` for an item, and the passing of time.
pub data Move : Type 0 where
  gets : (clock : ℕ) → LockingQueue → Move
  consumes : LockingQueue → Move
  puts : (stamp value : Text) → (priority : ℕ) → LockingQueue → Move
  extends : (expire_at : ℕ) → (h_k : Text) → LockingQueue → Move
  waits : ℕ → Move

-- The seconds that a move takes, and that moves take.
abbrev pub seconds : Move → ℕ
seconds (waits d) = d
seconds _ = 0

abbrev pub duration : List Move → ℕ
duration [] = 0
duration (m ∷ ms) = seconds m + duration ms

-- The move is not made by client `c`, and does not count completed items under the key `p`.
abbrev pub IsOther : Text → Text → Move → Type 0
IsOther p c (gets _ q) = q.client_id ≢ c
IsOther p c (consumes q) = (q.client_id ≢ c) × (text_eq (q_lookup q) p ≡ false)
IsOther p c (puts _ _ _ _) = Unit
IsOther p c (extends _ _ q) = q.client_id ≢ c
IsOther p c (waits _) = Unit

abbrev pub AreOther : Text → Text → List Move → Type 0
AreOther p c [] = Unit
AreOther p c (m ∷ ms) = IsOther p c m × AreOther p c ms

-- An object that holds nothing yet.
pub record IsIdle (q : LockingQueue) : Type 0 where
  pub no_item : q.item ≡ none
  pub no_h_k : q.h_k ≡ none

module _ (r : Redis) where
  open r use {Store, elapse}

  unfoldable pub apply : Move → Store → Store
  apply (gets clock q) s = (get_item r clock q s).2
  apply (consumes q) s = (consume r q s).2
  apply (puts stamp value priority q) s = put r stamp value priority q s
  apply (extends expire_at h_k q) s = (lq_extend_lock r h_k q.client_id expire_at s).1
  apply (waits d) s = elapse d s

  unfoldable pub run : List Move → Store → Store
  run [] s = s
  run (m ∷ ms) s = run ms (apply m s)

  -- Unpacking writes nothing to the server.
  unpack_store : (o : Option Text) (q : LockingQueue) (s : Store) → (unpack r o q s).2 ≡ s
  unfolding unpack
  unpack_store none q s = refl
  unpack_store (some h_k) q s = ground arith

  pub after_get_store :
      (reply : Reply) (q : LockingQueue) (s : Store) → (after_get r reply q s).2 ≡ s
  unfolding after_get
  after_get_store (bulk h_k) q s = unpack_store (some h_k) _ s
  after_get_store queue_empty q s = unpack_store q.h_k q s
  after_get_store already_locked q s = unpack_store q.h_k q s
  after_get_store _ q s = refl

  pub finish_consume_store :
      (reply : Reply) (q : LockingQueue) (s : Store) → (finish_consume r reply q s).2 ≡ s
  unfolding finish_consume
  finish_consume_store (int n) q s = ground arith
  finish_consume_store _ q s = refl
