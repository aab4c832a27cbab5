-- ===== src/Redis/Queue/Life/Steps.antt =====
-- The calls on a queue in stolos/queue_backend/qbcli_redis.py as steps of an item's life.

use stolos.Prelude.{
  ℕ, ◌+◌, ◌≡◌, ◌≢◌, refl, ◌∙◌, ap, sym, true, Option, none, some, arith, Text, text_eq, text_eq_iff,
  leb, ltb, leb→le, ltb→lt, lookup, erase, ◌||◌, is_some, inl, inr, Bool-cases, Option-cases,
}
use stolos.Redis.Keys.{expired}
use stolos.Redis.Sets.{Redis}
use stolos.Redis.Lock.{is_value, is_value_iff}
use stolos.Redis.Lock.Frame.{Keeps, Keeps-refl, Keeps-trans, set-Keeps, expireat-Keeps}
use stolos.Redis.Scripts.{completed, lq_extend_lock, lq_consume}
use stolos.Redis.Queue.{LockingQueue, q_lookup, put, consume, pop_and_consume}
use stolos.Redis.Queue.Frame.{zrem-Keeps, persist-Keeps, incrby-Keeps, lq_put-Keeps}
use stolos.Redis.Queue.Moves.{
  Move, gets, consumes, puts, extends, waits, apply, finish_consume_store,
}
use stolos.Redis.Queue.Life.{
  free, Step, stay, finish, settle, extend, drop, expire, IsProper, item_at, view, Step-at,
  Step-keeps, leased_at, until_item,
}
use stolos.Redis.Queue.Life.Gets.{gets-Step}

module _ (r : Redis) (p : Text) where
  open r use {
    Store, keys, now, get, deadline, elapse, set, set_nx_lem, get-set, deadline-set, now-set,
    expireat, get-expireat, deadline-expireat, get-elapse, deadline-elapse, zincrby, get-zincrby,
    deadline-zincrby, persist, zrem, incrby, get-persist, deadline-persist, get-zrem, deadline-zrem,
    get-incrby, deadline-incrby,
  }

  extends-Step :
      (e : ℕ) (k : Text) (q : LockingQueue) (s : Store)
      → q.client_id ≢ completed
      → Step p
          (now s)
          (extends e k q)
          (view r p s)
          (view r p (lq_extend_lock r k q.client_id e s).1)
  unfolding lq_extend_lock
  extends-Step e k q s other =
      let c = q.client_id in
      let m = extends e k q in
      let s' = (lq_extend_lock r k c e s).1 in
      elim (Bool-cases (is_value (get s k) c)) [
        | inr foreign ↦
            let kept : Keeps keys p s s' = ground (arith, foreign, Keeps-refl keys p s) in
            Step-keeps r p m s s' kept
        | inl own ↦ elim (Bool-cases (text_eq k p)) [
          | inr apart ↦
              let kept : Keeps keys p s s' =
                ground (arith, own, expireat-Keeps keys p k apart e s) in
              Step-keeps r p m s s' kept
          | inl same ↦
              let here : k ≡ p = (text_eq_iff k p).0 same in
              let held : get s p ≡ some c =
                sym (ap (get s) here) ∙ (is_value_iff (get s k) c).0 own in
              elim (Bool-cases (leb e (now s))) [
                | inl past ↦
                    let gone : get s' p ≡ none =
                      ground (arith, own, same, past, get-expireat k e s p) in
                    Step-at r p m s s' held refl gone refl (
                      rw (leased_at c (deadline s p) other)
                        (drop e k c q (deadline s p) here refl (leb→le e (now s) past)))
                | inr ahead ↦
                    let early : ltb (now s) e ≡ true = ground (arith, ahead) in
                    let at_k : get s k ≡ some c = ap (get s) here ∙ held in
                    let owner : get s' p ≡ some c =
                      ground (arith, own, same, ahead, get-expireat k e s p, held) in
                    let bound : deadline s' p ≡ some e =
                      ground (arith, own, same, early, deadline-expireat k e s p, at_k) in
                    Step-at r p m s s' held refl owner bound (
                      rw (leased_at c (deadline s p) other, leased_at c (some e) other)
                        (extend e k c q (deadline s p) here refl (ltb→lt (now s) e early)))
              ]
        ]
      ]

  waits-Step : (n : ℕ) (s : Store) → Step p (now s) (waits n) (view r p s) (view r p (elapse n s))
  waits-Step n s =
      let m = waits n in
      let s' = elapse n s in
      let d = deadline s p in
      elim (Bool-cases (expired d (now s + n))) [
        | inr later ↦
            let same : get s' p ≡ get s p = get-elapse n s p ∙ rw later refl in
            let lease : deadline s' p ≡ d = deadline-elapse n s p ∙ rw later refl in
            Step-at r p m s s' refl refl same lease (stay m (view r p s))
        | inl over ↦
            let gone : get s' p ≡ none = get-elapse n s p ∙ rw over refl in
            elim (Option-cases (get s p)) [
              | inl vacant ↦ Step-at r p m s s' vacant refl gone refl (stay m free)
              | inr (v, held) ↦
                  Step-at r p m s s' held refl gone refl
                    (expire n (item_at (some v) d) (until_item v d (now s + n) ∙ over))
            ]
      ]

  lq_consume-Step :
      (k : Text) (q : LockingQueue) (s : Store)
      → IsProper p (consumes q)
      → Step p
          (now s)
          (consumes q)
          (view r p s)
          (view r p (lq_consume r k q.path (q_lookup q) q.client_id s).1)
  unfolding lq_consume
  lq_consume-Step k q s (other, no_counter) =
      let c = q.client_id in
      let m = consumes q in
      let rv = get s k in
      let s₁ = set k completed s in
      let s₂ = persist k s₁ in
      let s₃ = zrem q.path k s₂ in
      let s' = (lq_consume r k q.path (q_lookup q) c s).1 in
      elim (Bool-cases (is_value rv c || is_value rv completed)) [
        | inr foreign ↦
            let kept : Keeps keys p s s' = ground (arith, foreign, Keeps-refl keys p s) in
            Step-keeps r p m s s' kept
        | inl allowed ↦ elim (Bool-cases (text_eq k p)) [
          | inr apart ↦
              let done =
                Keeps-trans keys p (set-Keeps keys p k apart completed s)
                  (persist-Keeps r p k s₁ apart) in
              let removed = Keeps-trans keys p done (zrem-Keeps r p q.path k s₂) in
              let counted =
                Keeps-trans keys p removed (incrby-Keeps r p (q_lookup q) 1 s₃ no_counter) in
              let kept : Keeps keys p s s' = ground (arith, allowed, removed, counted) in
              Step-keeps r p m s s' kept
          | inl same ↦
              let value : get s' p ≡ some completed = ground (
                arith,
                allowed,
                same,
                get-set k completed s p,
                get-persist k s₁ p,
                get-zrem q.path k s₂ p,
                get-incrby (q_lookup q) 1 s₃ p no_counter,
              ) in
              let lease : deadline s' p ≡ none = ground (
                arith,
                allowed,
                same,
                deadline-persist k s₁ p,
                deadline-zrem q.path k s₂ p,
                deadline-incrby (q_lookup q) 1 s₃ p,
              ) in
              let here : k ≡ p = (text_eq_iff k p).0 same in
              let at = λ (v : Text) (e : get s k ≡ some v). sym (ap (get s) here) ∙ e in
              elim (Bool-cases (is_value rv completed)) [
                | inl settled ↦
                    Step-at r p m s s' (at completed ((is_value_iff rv completed).0 settled)) refl
                      value lease (settle q (deadline s p))
                | inr running ↦
                    let own : is_value rv c ≡ true = ground (arith, allowed, running) in
                    Step-at r p m s s' (at c ((is_value_iff rv c).0 own)) refl value lease
                      (rw (leased_at c (deadline s p) other) (finish q c (deadline s p) refl))
              ]
        ]
      ]

  pop-Step :
      (h_k : Option Text) (q : LockingQueue) (s : Store)
      → IsProper p (consumes q)
      → Step p (now s) (consumes q) (view r p s) (view r p (pop_and_consume r h_k q s).2)
  unfolding pop_and_consume
  pop-Step none q s proper = stay (consumes q) (view r p s)
  pop-Step (some k) q s proper =
      let (reply, s') = lq_consume r k q.path (q_lookup q) q.client_id s in
      elim (Bool-cases (is_some (lookup k q.locks))) [
        | inl mine ↦
            rw (mine, finish_consume_store r reply (record q { locks = erase k q.locks }) s')
              (lq_consume-Step k q s proper)
        | inr stolen ↦ rw stolen (stay (consumes q) (view r p s))
      ]

  consumes-Step :
      (q : LockingQueue) (s : Store)
      → IsProper p (consumes q)
      → Step p (now s) (consumes q) (view r p s) (view r p (consume r q s).2)
  unfolding consume
  consumes-Step q s proper = elim (Bool-cases (is_some q.item)) [
    | inl busy ↦ rw busy (pop-Step q.h_k q s proper)
    | inr idle ↦ rw idle (stay (consumes q) (view r p s))
  ]

  -- Every call of a method of a queue object, every extension of a lock and every wait changes the
  -- item as a step of the machine allows: while it is free only `get` gives it to a client, and with a
  -- deadline in the future; while a client has it, only this client's `consume` finishes it and only
  -- this client's extension moves its deadline; it becomes free only when a deadline has passed; and
  -- once it is finished without a deadline, it stays so. No client has the id "completed", and no counter that
  -- is written has the item's key.
  pub apply-Step :
      (m : Move) (s : Store) → IsProper p m → Step p (now s) m (view r p s) (view r p (apply r m s))
  unfolding apply put
  apply-Step (gets clock q) s proper = gets-Step r p clock q s proper
  apply-Step (consumes q) s proper = consumes-Step q s proper
  apply-Step (puts stamp value priority q) s proper =
      Step-keeps r p (puts stamp value priority q) s _ (lq_put-Keeps r p q.path _ s)
  apply-Step (extends e k q) s proper = extends-Step e k q s proper
  apply-Step (waits n) s proper = waits-Step n s
