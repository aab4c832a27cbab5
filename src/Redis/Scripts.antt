-- ===== src/Redis/Scripts.antt =====
-- stolos/queue_backend/qbcli_redis.py: the lua scripts in `LockingQueue.SCRIPTS` that its methods
-- send, over any server. `lq_lock`, `lq_completed` and `lq_unlock` are sent by no code.
use stolos.Redis.Sets.{Redis}
use stolos.Redis.Lock.{is_value}
use stolos.Prelude.{
  ℕ, zero, suc, ◌+◌, ◌-◌, Bool, true, false, ◌||◌, List, [], ◌∷◌, Text, txt, text_eq, is_some,
  if◌then◌else◌, ◌==◌, length,
}

pub data Reply : Type 0 where
  int : ℕ → Reply
  bulk : Text → Reply
  queue_empty already_locked invalid_expireat already_completed lease_expired lock_stolen : Reply

abbrev pub completed : Text
completed = txt "completed"

abbrev pub drop : ℕ → Text → Text
drop zero t = t
drop (suc n) [] = []
drop (suc n) (c ∷ t) = drop n t

-- `string.sub(k, -n)`: the last `n` bytes, and the whole text where `n` is 0.
unfoldable pub lua_tail : Text → ℕ → Text
lua_tail k zero = k
lua_tail k (suc n) = drop (length k - suc n) k

-- What a script answers about an item: taken, queued, completed.
pub record Standing : Type 0 where
  pub taken : Bool
  pub queued : Bool
  pub done : Bool

abbrev pub standing : Bool → Bool → Bool → Standing
standing t q d = record { taken = t; queued = q; done = d }

module _ (r : Redis) where
  open r use {
    Store, get, set, set_nx, expireat, persist, del, zscore, zrange, zcard, zincrby, zrem, incrby,
  }

  unfoldable pub lq_put : (q h_k : Text) → Store → Store
  lq_put q h_k s = zincrby q 0 h_k s

  unfoldable pub take_first : (q client_id : Text) → ℕ → List Text → Store → Reply × Store
  take_first q client_id expire_at [] s = (queue_empty, s)
  take_first q client_id expire_at (h_k ∷ _) s =
      let (fresh, s₁) = set_nx h_k client_id s in
      let (n, s₂) = expireat h_k expire_at s₁ in
      if fresh
      then (if n == 1 then (bulk h_k, zincrby q 1 h_k s₂) else (invalid_expireat, s₂))
      else (already_locked, s₁)

  unfoldable pub lq_get : (q client_id : Text) → ℕ → Store → Reply × Store
  unfolding take_first
  lq_get q client_id expire_at s = take_first q client_id expire_at (zrange s q) s

  unfoldable pub lq_extend_lock : (h_k client_id : Text) → ℕ → Store → Reply × Store
  lq_extend_lock h_k client_id expire_at s =
      let rv = get s h_k in
      let (n, s') = expireat h_k expire_at s in
      if is_value rv client_id
      then (if n == 1 then (int 1, s') else (invalid_expireat, s'))
      else if is_value rv completed
      then (already_completed, s)
      else if is_some rv
      then (lock_stolen, s)
      else (lease_expired, s)

  unfoldable pub lq_consume : (h_k q qi client_id : Text) → Store → Reply × Store
  lq_consume h_k q qi client_id s =
      let rv = get s h_k in
      let s' = zrem q h_k (persist h_k (set h_k completed s)) in
      if is_value rv client_id || is_value rv completed
      then (int 1, if is_value rv completed then s' else (incrby qi 1 s').1)
      else (int 0, s)

  unfoldable pub count_in : (is_taken : Bool) → List Text → Store → ℕ
  count_in is_taken [] s = 0
  count_in is_taken (k ∷ ks) s =
      let v = get s k in
      let rest = count_in is_taken ks s in
      if is_value v completed
      then rest
      else if is_some v
      then (if is_taken then rest + 1 else rest)
      else if is_taken
      then rest
      else rest + 1

  -- Both scripts add 0 to the counter, which creates it.
  unfoldable pub lq_qsize_fast : (q qi : Text) → Store → (ℕ × ℕ) × Store
  lq_qsize_fast q qi s = let (n, s') = incrby qi 0 s in ((zcard s q, n), s')

  unfoldable pub lq_qsize_slow : (q qi : Text) → Store → (ℕ × ℕ × ℕ) × Store
  unfolding count_in
  lq_qsize_slow q qi s =
      let (n, s') = incrby qi 0 s in
      ((count_in false (zrange s q) s, count_in true (zrange s q) s, n), s')

  unfoldable pub lq_is_queued_h_k : (q h_k : Text) → Store → Standing
  lq_is_queued_h_k q h_k s =
      let taken = get s h_k in
      if is_value taken completed
      then standing false false true
      else if is_some taken
      then standing true false false
      else standing false (is_some (zscore s q h_k)) false

  unfoldable pub find_item : Text → List Text → Store → Standing
  find_item item [] s = standing false false false
  find_item item (k ∷ ks) s =
      let taken = get s k in
      let rest = find_item item ks s in
      if text_eq (lua_tail k (length item)) item
      then (if is_some taken
          then (if is_value taken completed
              then standing false false true
              else standing true false false)
          else standing false true false)
      else rest

  unfoldable pub lq_is_queued_item : (q item : Text) → Store → Standing
  unfolding find_item
  lq_is_queued_item q item s = find_item item (zrange s q) s
