-- ===== src/Redis/Queue/Life/Gets.antt =====
-- `get` of class LockingQueue in stolos/queue_backend/qbcli_redis.py as a step of an item's life.

use stolos.Prelude.{
  ℕ, ◌+◌, ◌≡◌, ◌≢◌, refl, ◌∙◌, ap, true, none, some, List, [], ◌∷◌, arith, Text, text_eq,
  text_eq_iff, text_eq_self, leb, ltb, is_some, if◌then◌else◌, inl, inr, Bool-cases, Option-cases,
}
use stolos.Redis.Sets.{Redis}
use stolos.Redis.Lock.Frame.{Keeps, Keeps-refl, Keeps-trans, set-Keeps, expireat-Keeps}
use stolos.Redis.Scripts.{completed, lq_get, take_first}
use stolos.Redis.Queue.{LockingQueue, get_item}
use stolos.Redis.Queue.Frame.{zincrby-Keeps}
use stolos.Redis.Queue.Moves.{gets, after_get_store}
use stolos.Redis.Queue.Life.{free, Step, stay, take, view, Step-at, Step-keeps, leased_at}

module _ (r : Redis) (p : Text) where
  open r use {
    Store, keys, now, get, deadline, elapse, set, set_nx_lem, get-set, deadline-set, now-set,
    expireat, get-expireat, deadline-expireat, get-elapse, deadline-elapse, zincrby, get-zincrby,
    deadline-zincrby, persist, zrem, incrby, get-persist, deadline-persist, get-zrem, deadline-zrem,
    get-incrby, deadline-incrby,
  }

  module _ (clock : ℕ) (q : LockingQueue) (k : Text) (ks : List Text) (s : Store) where
    abbrev end : ℕ
    end = clock + q.lock_timeout

    abbrev marked : Store
    marked = set k q.client_id s

    abbrev after : Store
    after = (expireat k end marked).1

    taken :
        q.client_id ≢ completed
        → k ≡ p
        → get s p ≡ none
        → Step p
            (now s)
            (gets clock q)
            (view r p s)
            (view r p (take_first r q.path q.client_id end (k ∷ ks) s).1)
    unfolding take_first
    taken other here vacant =
        let c = q.client_id in
        let s' = (take_first r q.path c end (k ∷ ks) s).1 in
        let at_k = ap (text_eq k) here in
        let fresh : get s k ≡ none = ap (get s) here ∙ vacant in
        let value : get s' p ≡ (if leb end (now s) then none else some c) = ground (
          arith,
          fresh,
          here,
          set_nx_lem k c s,
          get-expireat k end marked p,
          get-set k c s p,
          now-set k c s,
          get-zincrby q.path 1 k after p,
          text_eq_iff k p,
        ) in
        let lease : deadline s' p ≡ (if ltb (now s) end then some end else none) = ground (
          arith,
          fresh,
          here,
          set_nx_lem k c s,
          deadline-expireat k end marked p,
          get-set k c s k,
          now-set k c s,
          deadline-zincrby q.path 1 k after p,
          text_eq_iff k p,
          text_eq_self k,
        ) in
        elim (Bool-cases (leb end (now s))) [
          | inl past ↦
              let gone : get s' p ≡ none = value ∙ rw past refl in
              Step-at r p (gets clock q) s s' vacant refl gone refl (stay (gets clock q) free)
          | inr ahead ↦
              let early : ltb (now s) end ≡ true = ground (arith, ahead) in
              let owner : get s' p ≡ some c = value ∙ rw ahead refl in
              let bound : deadline s' p ≡ some end = lease ∙ rw early refl in
              Step-at r p (gets clock q) s s' vacant refl owner bound
                (rw (leased_at c (some end) other) (take clock q (ground (arith, ahead))))
        ]

  take_first-Step :
      (clock : ℕ) (q : LockingQueue) (ks : List Text) (s : Store)
      → q.client_id ≢ completed
      → Step p
          (now s)
          (gets clock q)
          (view r p s)
          (view r p (take_first r q.path q.client_id (clock + q.lock_timeout) ks s).1)
  unfolding take_first
  take_first-Step clock q [] s other = stay (gets clock q) (view r p s)
  take_first-Step clock q (k ∷ ks) s other =
      let c = q.client_id in
      let e = clock + q.lock_timeout in
      let s₁ = set k c s in
      let s₂ = (expireat k e s₁).1 in
      let s' = (take_first r q.path c e (k ∷ ks) s).1 in
      elim (Bool-cases (text_eq k p)) [
        | inl same ↦
            let here : k ≡ p = (text_eq_iff k p).0 same in
            elim (Option-cases (get s p)) [
              | inr (v, held) ↦
                  let kept : Keeps keys p s s' =
                    ground (arith, here, held, set_nx_lem k c s, Keeps-refl keys p s) in
                  Step-keeps r p (gets clock q) s s' kept
              | inl vacant ↦ taken clock q k ks s other here vacant
            ]
        | inr apart ↦
            let leased =
              Keeps-trans keys p (set-Keeps keys p k apart c s)
                (expireat-Keeps keys p k apart e s₁) in
            let ranked = Keeps-trans keys p leased (zincrby-Keeps r p q.path 1 k s₂) in
            let kept : Keeps keys p s s' =
              ground (arith, set_nx_lem k c s, leased, ranked, Keeps-refl keys p s) in
            Step-keeps r p (gets clock q) s s' kept
      ]

  -- A call of `get` is a step of the item.
  pub gets-Step :
      (clock : ℕ) (q : LockingQueue) (s : Store)
      → q.client_id ≢ completed
      → Step p (now s) (gets clock q) (view r p s) (view r p (get_item r clock q s).2)
  unfolding get_item lq_get
  gets-Step clock q s other =
      let e = clock + q.lock_timeout in
      let (reply, s') = lq_get r q.path q.client_id e s in
      let moved = take_first-Step clock q (r.zrange s q.path) s other in
      elim (Bool-cases (is_some q.item)) [
        | inl busy ↦ rw busy (stay (gets clock q) (view r p s))
        | inr idle ↦ rw (idle, after_get_store r reply q s') moved
      ]
