-- ===== src/Redis/Lock/Frame.antt =====
-- What the lock scripts leave alone: every other key, and a key that somebody else holds.
use stolos.Prelude.{
  ℕ, ◌<◌, ◌≡◌, ◌≢◌, refl, ◌∙◌, false, some, arith, Text, text_eq, text_eq_iff, text_eq_self,
}
use stolos.Redis.Keys.{Keys}
use stolos.Redis.Lock.{int, not_owner, extend_or_del, is_value_iff, l_lock, l_unlock, l_extend_lock}

module _ (r : Keys) where
  open r use {
    Store, now, get, deadline, set, expireat, del, set_nx_lem, get-set, deadline-set, now-set,
    get-expireat, deadline-expireat, now-expireat, get-del, deadline-del, now-del, expireat-reply,
  }

  -- A key has the same value and deadline as before, at the same time.
  pub record Keeps (p : Text) (s s' : Store) : Type 0 where
    pub same_value : get s' p ≡ get s p
    pub same_deadline : deadline s' p ≡ deadline s p
    pub same_time : now s' ≡ now s

  pub Keeps-refl : (p : Text) (s : Store) → Keeps p s s
  Keeps-refl p s = record { same_value = refl; same_deadline = refl; same_time = refl }

  pub Keeps-trans : (p : Text) {s s' s'' : Store} → Keeps p s s' → Keeps p s' s'' → Keeps p s s''
  Keeps-trans p k k' = record {
    same_value = k'.same_value ∙ k.same_value;
    same_deadline = k'.same_deadline ∙ k.same_deadline;
    same_time = k'.same_time ∙ k.same_time;
  }

  module _ (p q : Text) (apart : text_eq q p ≡ false) where
    pub set-Keeps : (v : Text) (s : Store) → Keeps p s (set q v s)
    set-Keeps v s = ground (arith, get-set q v s p, deadline-set q v s p, now-set q v s)

    pub expireat-Keeps : (e : ℕ) (s : Store) → Keeps p s (expireat q e s).1
    expireat-Keeps e s =
        ground (arith, get-expireat q e s p, deadline-expireat q e s p, now-expireat q e s)

    del-Keeps : (s : Store) → Keeps p s (del q s).1
    del-Keeps s = ground (arith, get-del q s p, deadline-del q s p, now-del q s)

    extend_or_del-Keeps : (e : ℕ) (s : Store) → Keeps p s (extend_or_del r q e s).1
    extend_or_del-Keeps e s =
        let kept = expireat-Keeps e s in
        let removed = Keeps-trans p kept (del-Keeps (expireat q e s).1) in
        ground (arith, kept, removed)

    pub l_lock-Keeps : (c : Text) (e : ℕ) (s : Store) → Keeps p s (l_lock r q c e s).1
    unfolding l_lock
    l_lock-Keeps c e s =
        let written = Keeps-trans p (set-Keeps c s) (extend_or_del-Keeps e (set q c s)) in
        let found = extend_or_del-Keeps e s in
        ground (arith, set_nx_lem q c s, written, found, Keeps-refl p s)

    pub l_unlock-Keeps : (c : Text) (s : Store) → Keeps p s (l_unlock r q c s).1
    unfolding l_unlock
    l_unlock-Keeps c s = ground (arith, del-Keeps s, Keeps-refl p s)

    pub l_extend_lock-Keeps : (c : Text) (e : ℕ) (s : Store) → Keeps p s (l_extend_lock r q c e s).1
    unfolding l_extend_lock
    l_extend_lock-Keeps c e s = ground (arith, expireat-Keeps e s, Keeps-refl p s)

  module _ (p c d : Text) (s : Store) (held : get s p ≡ some c) (other : d ≢ c) where
    pub l_lock_refused : (e : ℕ) → l_lock r p d e s ≡ (int 0, s)
    unfolding l_lock
    l_lock_refused e = ground (arith, set_nx_lem p d s, text_eq_iff c d)

    pub l_unlock_refused : l_unlock r p d s ≡ (int 0, s)
    unfolding l_unlock
    l_unlock_refused = ground (arith, text_eq_iff c d)

    pub l_extend_lock_refused : (e : ℕ) → l_extend_lock r p d e s ≡ (not_owner, s)
    unfolding l_extend_lock
    l_extend_lock_refused e = ground (arith, text_eq_iff c d)

  -- A granted lock is held by the client, until the time that it asked for.
  pub l_lock_granted :
      (p c : Text) (e : ℕ) (s : Store)
      → (l_lock r p c e s).0 ≡ int 1
      → now s < e
      → let s' = (l_lock r p c e s).1 in
        (get s' p ≡ some c) × (deadline s' p ≡ some e) × (now s' ≡ now s)
  unfolding l_lock
  l_lock_granted p c e s done future =
      let s₁ = set p c s in
      ground (
        arith,
        set_nx_lem p c s,
        get-set p c s p,
        deadline-set p c s p,
        now-set p c s,
        get-expireat p e s₁ p,
        deadline-expireat p e s₁ p,
        now-expireat p e s₁,
        get-expireat p e s p,
        deadline-expireat p e s p,
        now-expireat p e s,
        text_eq_self p,
        expireat-reply p e s,
        expireat-reply p e s₁,
        is_value_iff (get s p) c,
      )
