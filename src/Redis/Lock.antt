-- ===== src/Redis/Lock.antt =====
-- stolos/queue_backend/qbcli_redis.py: class Lock with its three lua scripts, over any server.
-- A lock object carries its own `LOCKS` dict: the constructor assigns `self.LOCKS`. The clock of
-- the client, `int(time.time())`, is an argument. Logging and threads are left out.
pub mod Frame
pub mod Exclusion
pub mod Release
pub mod Extender
mod Examples
use stolos.Redis.Keys.{Keys}
use stolos.Prelude.{
  ℕ, ◌+◌, ◌≡◌, ◌↔◌, arith, text_eq_iff, Bool, true, false, Option, none, some, ◌&&◌, Text, text_eq,
  is_some, if◌then◌else◌, ◌==◌, ltb, ◌-◌, [], ◌∷◌, Dict, lookup, insert, erase,
}

-- What a script returns: a number, or `{err=…}`, which the client raises as ResponseError.
pub data Reply : Type 0 where
  int : ℕ → Reply
  invalid_expireat not_owner : Reply

-- How a method ends: it returns, or it raises.
pub data Result (A : Type 0) : Type 0 where
  ok : A → Result A
  user_warning response_error : Result A

-- `rv == value`, for a reply that may be nil
abbrev pub is_value : Option Text → Text → Bool
is_value none v = false
is_value (some w) v = text_eq w v

-- The end of a round that took `delta`: `lock_timeout > sleep_time > 0`, or the process exits.
pub sleep_time : (lock_timeout max_network_delay delta : ℕ) → Option ℕ
sleep_time lock_timeout max_network_delay delta =
    if ltb (max_network_delay + delta) lock_timeout && ltb 0 (max_network_delay + delta)
    then some (lock_timeout - max_network_delay - delta)
    else none

pub is_value_iff : (o : Option Text) (v : Text) → (is_value o v ≡ true) ↔ (o ≡ some v)
is_value_iff none v = ground arith
is_value_iff (some w) v = ground (arith, text_eq_iff w v)

-- A lock object; `lock_timeout` is the option qb_redis_lock_timeout.
pub record Lock : Type 0 where
  pub path : Text
  pub client_id : Text
  pub lock_timeout : ℕ
  pub locks : Dict Text

-- `1 == reply`, where an error reply raises.
abbrev acquired : Reply → Result Bool
acquired (int n) = ok (n == 1)
acquired _ = response_error

-- `assert rv == 1` under its handlers: every failure is a UserWarning.
abbrev released : Reply → Result Unit
released (int n) = if n == 1 then ok tt else user_warning
released _ = user_warning

-- `x[2] != 1` stops the round, and so does an error reply: its thread leaves no result.
abbrev extended : Reply → Bool
extended (int n) = n == 1
extended _ = false

module _ (r : Keys) where
  open r use {Store, get, set_nx, expireat, del}

  -- EXPIREAT on a key that was just written or found, or DEL and an error
  abbrev extend_or_del : Text → ℕ → Store → Reply × Store
  extend_or_del path expire_at s =
      let (n, s') = expireat path expire_at s in
      if n == 1 then (int 1, s') else (invalid_expireat, (del path s').1)

  pub l_lock : Text → Text → ℕ → Store → Reply × Store
  l_lock path client_id expire_at s =
      let (fresh, s') = set_nx path client_id s in
      if fresh
      then extend_or_del path expire_at s'
      else if is_value (get s' path) client_id
      then extend_or_del path expire_at s'
      else (int 0, s')

  pub l_unlock : Text → Text → Store → Reply × Store
  l_unlock path client_id s =
      let rv = get s path in
      if is_value rv client_id
      then (let (n, s') = del path s in (int n, s'))
      else if is_some rv
      then (int 0, s)
      else (int 1, s)

  pub l_extend_lock : Text → Text → ℕ → Store → Reply × Store
  l_extend_lock path client_id expire_at s =
      if is_value (get s path) client_id
      then (let (n, s') = expireat path expire_at s in (int n, s'))
      else (not_owner, s)

  -- `acquire`: neither `blocking` nor `timeout` reaches the script.
  pub acquire : (clock : ℕ) → Lock → Store → Result Bool × Lock × Store
  unfolding l_lock
  acquire clock l s =
      let (reply, s') = l_lock l.path l.client_id (clock + l.lock_timeout) s in
      elim (acquired reply) [
        | ok true ↦ (ok true, record l { locks = insert l.path l.client_id l.locks }, s')
        | other ↦ (other, l, s')
      ]

  pub release : Lock → Store → Result Unit × Lock × Store
  unfolding l_unlock
  release l s =
      if is_value (lookup l.path l.locks) l.client_id
      then (let (reply, s') = l_unlock l.path l.client_id s in
          (released reply, record l { locks = erase l.path l.locks }, s'))
      else (user_warning, l, s)

  abbrev pub is_locked : Lock → Store → Bool
  is_locked l s = is_some (get s l.path)

  -- `_extend` for one path of `LOCKS`
  pub extend : (clock : ℕ) → (path client_id : Text) → Lock → Store → Reply × Store
  unfolding l_extend_lock
  extend clock path client_id l s = l_extend_lock path client_id (clock + l.lock_timeout + 1) s

  -- One round of `_extend_lock_in_background`: false means that it raised, and that the
  -- process is told to exit.
  pub extend_all : (clock : ℕ) → Lock → Dict Text → Store → Bool × Store
  unfolding extend
  extend_all clock l [] s = (true, s)
  extend_all clock l ((path, client_id) ∷ rest) s =
      let (reply, s') = extend clock path client_id l s in
      let (others, s'') = extend_all clock l rest s' in (extended reply && others, s'')
