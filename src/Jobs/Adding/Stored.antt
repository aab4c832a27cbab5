-- ===== src/Jobs/Adding/Stored.antt =====
-- A state that `set_state` of stolos/queue_backend/modify_job_state.py stores is the one that
-- `check_state` of stolos/queue_backend/read_job_state.py finds.
use stolos.Prelude.{
  ◌≡◌, refl, ◌∙◌, Bool, true, false, ◌&&◌, ◌||◌, List, ◌∷◌, ◌++◌, arith, Text, Dict, text_eq,
  text_eq_self, mem_text, ltb, if◌then◌else◌, ◌==◌,
}
use stolos.Jobs.Actions.{Action, ok, raised, user_warning, pure, then_ok}
use stolos.Jobs.Backend.{Backend, exists, set, create}
use stolos.Jobs.Paths.{get_job_path, pending_state, completed_state, failed_state, skipped_state}
use stolos.Jobs.States.{
  Flags, count_flags, if_asked, requested, validate_state, validate_states, answer, check_state,
}
use stolos.Jobs.Adding.{Dag, store, set_state}

-- The flags name a state in common.
abbrev pub shares : Flags → Flags → Bool
shares f g =
    (f.pending && g.pending)
    || ((f.completed && g.completed) || ((f.failed && g.failed) || (f.skipped && g.skipped)))

mem_text-if_asked :
    (x : Text) (asked : Bool) (t : Text) (rest : List Text)
    → mem_text x (if_asked asked t ++ rest) ≡ ((asked && text_eq x t) || mem_text x rest)
mem_text-if_asked x true t rest = ground arith
mem_text-if_asked x false t rest = refl

mem_text-last :
    (x : Text) (asked : Bool) (t : Text) → mem_text x (if_asked asked t) ≡ (asked && text_eq x t)
mem_text-last x true t = ground arith
mem_text-last x false t = refl

mem_text-requested :
    (x : Text) (g : Flags) (all : Bool)
    → mem_text x (requested g all) ≡ (
        ((all || g.pending) && text_eq x pending_state)
        || (((all || g.completed) && text_eq x completed_state)
            || (((all || g.failed) && text_eq x failed_state)
                || ((all || g.skipped) && text_eq x skipped_state))))
mem_text-requested x g all = ground (
  arith,
  mem_text-if_asked x (all || g.pending) pending_state (
      if_asked (all || g.completed) completed_state
      ++ (if_asked (all || g.failed) failed_state ++ if_asked (all || g.skipped) skipped_state)),
  mem_text-if_asked x (all || g.completed) completed_state
      (if_asked (all || g.failed) failed_state ++ if_asked (all || g.skipped) skipped_state),
  mem_text-if_asked x (all || g.failed) failed_state (if_asked (all || g.skipped) skipped_state),
  mem_text-last x (all || g.skipped) skipped_state,
)

requested_lem :
    (p c f k : Bool) (g : Flags) (all : Bool) (v : Text)
    → let flags : Flags = record { pending = p; completed = c; failed = f; skipped = k } in
      validate_state flags ≡ ok v → mem_text v (requested g all) ≡ (all || shares flags g)
unfolding validate_state
requested_lem p c f k g all v valid = ground (arith, mem_text-requested v g all)

module _ (b : Backend) (d : Dag) (queue_children : (app_name job_id : Text) → Action b.State Unit)
    (app_name job_id : Text) (entry : Text × Text) (parts : Dict Text)
    (parsed : d.parse_job_id app_name job_id ≡ ok (entry ∷ parts)) where
  open b use {State, node, write, node-write}

  abbrev path : Text
  path = get_job_path app_name job_id

  store_lem : (v : Text) (s : State) → store b d queue_children path v s ≡ (ok tt, write path v s)
  unfolding exists set create
  store_lem v s = ground arith

  children_lem :
      (completed : Bool) (s s₁ : State)
      → queue_children app_name job_id s ≡ (ok tt, s₁)
      → (if completed then queue_children app_name job_id else pure tt) s
        ≡ (ok tt, if completed then s₁ else s)
  children_lem true s s₁ queued = queued
  children_lem false s s₁ queued = refl

  pub set_state_lem :
      (f : Flags) (v : Text) (s s₁ : State)
      → validate_state f ≡ ok v
      → queue_children app_name job_id s ≡ (ok tt, s₁)
      → set_state b d queue_children app_name job_id f s
        ≡ (ok tt, write path v (if f.completed then s₁ else s))
  unfolding set_state
  set_state_lem f v s s₁ valid queued =
      rw (parsed, valid)
        (then_ok (if f.completed then queue_children app_name job_id else pure tt)
            (store b d queue_children path v) (children_lem f.completed s s₁ queued)
          ∙ store_lem v (if f.completed then s₁ else s))

  -- For a job whose id has parts, flags that name exactly one state, and children that can be
  -- queued: after `set_state` with these flags, `check_state` answers True exactly if it is asked
  -- for all states, or for the one that was set. It is asked for at least one state.
  pub check_state-set_state :
      (f g : Flags) (all : Bool) (v : Text) (s s₁ : State)
      → validate_state f ≡ ok v
      → queue_children app_name job_id s ≡ (ok tt, s₁)
      → (all || ltb 0 (count_flags g)) ≡ true
      → let (r, s') = set_state b d queue_children app_name job_id f s in
        (r ≡ ok tt)
        × (check_state b app_name job_id false false g all s' ≡ ok (answer (all || shares f g)))
  unfolding check_state validate_states
  check_state-set_state f g all v s s₁ valid queued asked =
      let s₂ = if f.completed then s₁ else s in
      rw (set_state_lem f v s s₁ valid queued) (
        ground (
          arith,
          node-write path v s₂ path,
          text_eq_self path,
          requested_lem f.pending f.completed f.failed f.skipped g all v valid,
        ))

  -- For a job whose id has parts: where the flags do not name exactly one state, `set_state` raises
  -- UserWarning and changes nothing.
  pub set_state_refused :
      (f : Flags) (s : State)
      → (count_flags f == 1) ≡ false
      → set_state b d queue_children app_name job_id f s ≡ (raised user_warning, s)
  unfolding set_state validate_state
  set_state_refused f s many = rw parsed (ground arith)
