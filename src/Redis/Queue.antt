-- ===== src/Redis/Queue.antt =====
-- stolos/queue_backend/qbcli_redis.py: the methods of class LockingQueue. A queue object carries
-- its own `LOCKS` dict; the client's clock, `int(time.time())`, and the text of
-- `"%f" % time.time()` are arguments.
pub mod Moves
pub mod Life
pub mod Frame
pub mod Lookup
pub mod Exclusion
pub mod Consume
pub mod Naming
pub mod Sizes
mod Examples
use stolos.Redis.Sets.{Redis}
use stolos.Redis.Lock.{is_value}
use stolos.Redis.Scripts.{
  Reply, int, bulk, queue_empty, already_locked, lq_put, lq_get, lq_consume, lq_qsize_fast,
  lq_qsize_slow, lq_is_queued_h_k, lq_is_queued_item,
}
use stolos.Prelude.{
  ℕ, ◌+◌, Bool, true, false, not, ◌&&◌, ◌||◌, Option, none, some, List, [], ◌∷◌, ◌++◌, Text, txt,
  is_some, if◌then◌else◌, ◌==◌, Dict, lookup, insert, erase, split, decimal,
}

-- How a method ends: it returns, or it raises.
pub data Result (A : Type 0) : Type 0 where
  ok : A → Result A
  user_warning key_error assertion_error response_error value_error attribute_error : Result A

pub record LockingQueue : Type 0 where
  pub path : Text
  pub client_id : Text
  pub lock_timeout : ℕ
  pub item : Option Text
  pub h_k : Option Text
  pub locks : Dict Text

-- `_q_lookup`, the key of the counter of completed items
abbrev pub q_lookup : LockingQueue → Text
q_lookup q = b'.' ∷ q.path

-- `"%d:%f:%s" % (priority, time.time(), value)`
unfoldable pub hashed_key : (priority : ℕ) → (stamp value : Text) → Text
hashed_key priority stamp value = decimal priority ++ b':' ∷ (stamp ++ b':' ∷ value)

abbrev third : List Text → Option Text
third (priority ∷ insert_time ∷ item ∷ []) = some item
third _ = none

-- `priority, insert_time, item = h_k.split(':', 2)`; none means that the unpacking raised.
unfoldable pub item_of : Text → Option Text
item_of h_k = third (split (txt ":") 2 h_k)

module _ (r : Redis) where
  open r use {Store}

  unfoldable pub put : (stamp value : Text) → (priority : ℕ) → LockingQueue → Store → Store
  unfolding lq_put
  put stamp value priority q s = lq_put r q.path (hashed_key priority stamp value) s

  -- `assert rv == 1`, after `LOCKS.pop`: where it fails the object keeps its item.
  pub finish_consume : Reply → LockingQueue → Store → Result Unit × LockingQueue × Store
  finish_consume (int n) q s =
      if n == 1 then (ok tt, record q { h_k = none; item = none }, s) else (assertion_error, q, s)
  finish_consume _ q s = (assertion_error, q, s)

  pop_and_consume : Option Text → LockingQueue → Store → Result Unit × LockingQueue × Store
  unfolding finish_consume
  pop_and_consume none q s = (key_error, q, s)
  pop_and_consume (some h_k) q s =
      let (reply, s') = lq_consume r h_k q.path (q_lookup q) q.client_id s in
      if is_some (lookup h_k q.locks)
      then finish_consume reply (record q { locks = erase h_k q.locks }) s'
      else (key_error, q, s)

  unfoldable pub consume : LockingQueue → Store → Result Unit × LockingQueue × Store
  unfolding pop_and_consume
  consume q s = if is_some q.item then pop_and_consume q.h_k q s else (user_warning, q, s)

  -- `if self._h_k:` and the unpacking
  unpack : Option Text → LockingQueue → Store → Result (Option Text) × LockingQueue × Store
  unpack none q s = (ok none, q, s)
  unpack (some h_k) q s = elim (item_of h_k) [
    | none ↦ (value_error, q, s)
    | some item ↦
        (ok (some item), record q { item = some item; locks = insert h_k q.client_id q.locks }, s)
  ]

  pub after_get : Reply → LockingQueue → Store → Result (Option Text) × LockingQueue × Store
  unfolding unpack
  after_get (bulk h_k) q s = unpack (some h_k) (record q { h_k = some h_k }) s
  after_get queue_empty q s = unpack q.h_k q s
  after_get already_locked q s = unpack q.h_k q s
  after_get _ q s = (response_error, q, s)

  unfoldable pub get_item :
      (clock : ℕ) → LockingQueue → Store → Result (Option Text) × LockingQueue × Store
  unfolding after_get
  get_item clock q s =
      let (reply, s') = lq_get r q.path q.client_id (clock + q.lock_timeout) s in
      if is_some q.item then (ok q.item, q, s) else after_get reply q s'

  unfoldable pub size : (queued taken : Bool) → LockingQueue → Store → Result ℕ × Store
  size queued taken q s =
      let ((both, _), s₁) = lq_qsize_fast r q.path (q_lookup q) s in
      let ((n_queued, n_taken, _), s₂) = lq_qsize_slow r q.path (q_lookup q) s in
      if not queued && not taken
      then (attribute_error, s)
      else if taken && queued
      then (ok both, s₁)
      else if queued
      then (ok n_queued, s₂)
      else (ok n_taken, s₂)

  unfoldable pub is_queued : Text → LockingQueue → Store → Bool
  is_queued value q s =
      let mine = lq_is_queued_h_k r q.path (elim q.h_k [ none ↦ [] | some h_k ↦ h_k ]) s in
      let found = lq_is_queued_item r q.path value s in
      if is_value q.item value then mine.taken || mine.queued else found.taken || found.queued
