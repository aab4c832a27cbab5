-- ===== src/Jobs/Adding/Outcomes.antt =====
-- What adding a job does, on every path of `maybe_add_subtask` in
-- stolos/queue_backend/modify_job_state.py.
use stolos.Prelude.{
  ℕ, ◌≡◌, refl, ap, ◌⊎◌, inl, inr, Bool, true, false, ◌&&◌, Option, none, some, [], ◌∷◌, ◌++◌, ◌∙◌,
  arith, Text, Dict, is_some, ◌||◌, text_eq, text_eq_iff, text_eq_self, if◌then◌else◌,
}
use stolos.Jobs.Actions.{Action, Exception, ok, raised}
use stolos.Jobs.Backend.{Backend, release_lock}
use stolos.Jobs.Paths.{
  add, get_job_path, get_lock_path, lock_path_apart, pending_state, skipped_state,
  starts_with-lock_path,
}
use stolos.Jobs.Locking.{obtain_lock}
use stolos.Jobs.Adding.{
  Dag, maybe_add_subtask, queue_job, set_state, as_pending, as_skipped, given_priority,
}

module _ (b : Backend) (d : Dag) (queue_children : (app_name job_id : Text) → Action b.State Unit)
    (app_name job_id : Text) (entry : Text × Text) (parts : Dict Text)
    (parsed : d.parse_job_id app_name job_id ≡ ok (entry ∷ parts)) where
  open b use {
    State, Lock, node, locked, holds, jobs, write, acquire, release, put, lock_path, node-write,
    locked-write, holds-write, jobs-write, acquire_free, acquire_taken, node-acquire_absent,
    locked-acquire, jobs-acquire, release_held, node-release, locked-release, jobs-release,
    node-put, locked-put, holds-put, jobs-put,
  }

  abbrev pub path : Text
  path = get_job_path app_name job_id

  -- `set_state` stores a state that is not completed.
  pub set_state_pending :
      (s : State)
      → set_state b d queue_children app_name job_id as_pending s
        ≡ (ok tt, write path pending_state s)
  unfolding set_state
  set_state_pending s = ground arith

  set_state_skipped :
      (s : State)
      → set_state b d queue_children app_name job_id as_skipped s
        ≡ (ok tt, write path skipped_state s)
  unfolding set_state
  set_state_skipped s = ground arith

  abbrev pub lock_at : Text
  lock_at = get_lock_path add app_name job_id

  -- A job whose id has parts, and whose state is stored already or whose add lock is taken, is not
  -- added: the call returns False and nothing changes.
  pub maybe_add_refused :
      (queue : Bool) (priority : Option ℕ) (s : State)
      → (is_some (node s path) || locked s lock_at) ≡ true
      → maybe_add_subtask b d queue_children app_name job_id queue priority s ≡ (ok false, s)
  unfolding maybe_add_subtask obtain_lock
  maybe_add_refused queue priority s refused =
      ground (arith, starts_with-lock_path add app_name job_id, acquire_taken lock_at s)

  -- What a write of the job's state leaves alone.
  module _ (v : Text) (l : Lock) (s : State) (at : lock_path l ≡ lock_at) where
    apart : text_eq path lock_at ≡ false
    apart = ground (
      arith,
      lock_path_apart add app_name job_id,
      text_eq_iff path lock_at,
      text_eq_iff lock_at path,
    )

    write_lem :
        let s' = write path v s in
        (node s' path ≡ some v)
        × (jobs s' app_name ≡ jobs s app_name)
        × (holds l s' ≡ holds l s)
        × (locked s' lock_at ≡ locked s lock_at)
    write_lem = ground (
      arith,
      apart,
      node-write path v s path,
      text_eq_self path,
      jobs-write path v s app_name,
      holds-write path v s l,
      locked-write path v s lock_at,
    )

  -- Under the add lock the state is written and the job is queued or not.
  pub queue_job_lem :
      (queue passes : Bool) (priority : Option ℕ) (l : Lock) (s : State)
      → d.passes_filter app_name job_id ≡ ok passes
      → lock_path l ≡ lock_at
      → let (r, s') = queue_job b d queue_children app_name job_id queue priority s in
        (r ≡ ok tt)
        × (node s' path ≡ some (if passes then pending_state else skipped_state))
        × (jobs s' app_name
            ≡ (if passes && queue then jobs s app_name ++ job_id ∷ [] else jobs s app_name))
        × (holds l s' ≡ holds l s)
        × (locked s' lock_at ≡ locked s lock_at)
  unfolding queue_job
  queue_job_lem queue true priority l s filtered at =
      let s₁ = write path pending_state s in
      let p = given_priority priority in
      rw filtered (
        ground (
          arith,
          set_state_pending s,
          write_lem pending_state l s at,
          node-put app_name job_id p s₁ path,
          jobs-put app_name job_id p s₁ app_name,
          holds-put app_name job_id p s₁ l,
          locked-put app_name job_id p s₁ lock_at,
          text_eq_self app_name,
        ))
  queue_job_lem queue false priority l s filtered at =
      rw filtered (ground (arith, set_state_skipped s, write_lem skipped_state l s at))

  -- Releasing the lock of the path that it was acquired at.
  pub release_lem :
      (l : Lock) (s : State)
      → lock_path l ≡ lock_at
      → holds l s ≡ true
      → let (r, s') = release_lock b l s in
        (r ≡ ok tt)
        × (node s' path ≡ node s path)
        × (jobs s' app_name ≡ jobs s app_name)
        × (locked s' lock_at ≡ false)
  unfolding release_lock
  release_lem l s at held = ground (
    arith,
    lock_path_apart add app_name job_id,
    release_held l s held,
    text_eq_self lock_at,
    node-release l s path,
    jobs-release l s app_name,
    locked-release l s lock_at held,
  )

  module _ (s : State) (absent : node s path ≡ none) (free : locked s lock_at ≡ false) where
    -- The add lock is taken.
    obtain_lem :
        (l : Lock) × (obtain_lock b add app_name job_id false false s
          ≡ (ok (some l), (acquire lock_at s).1))
        × (lock_path l ≡ lock_at)
        × (holds l (acquire lock_at s).1 ≡ true)
    unfolding obtain_lock
    obtain_lem =
        let (l, got, at, held) = acquire_free lock_at s free in
        (l, ground (arith, starts_with-lock_path add app_name job_id, got), at, held)

    -- Adding a job whose id has parts, whose state is not stored and whose add lock is free, where
    -- the filter returns: the job is stored as pending, or as skipped where the filter rejects it;
    -- it is queued once if it passed and the caller asked for it; the call returns True, and the add
    -- lock is free again.
    pub maybe_add_fresh :
        (queue passes : Bool) (priority : Option ℕ)
        → d.passes_filter app_name job_id ≡ ok passes
        → let (r, s') = maybe_add_subtask b d queue_children app_name job_id queue priority s in
          (r ≡ ok true)
          × (node s' path ≡ some (if passes then pending_state else skipped_state))
          × (jobs s' app_name
              ≡ (if passes && queue then jobs s app_name ++ job_id ∷ [] else jobs s app_name))
          × (locked s' lock_at ≡ false)
    unfolding maybe_add_subtask
    maybe_add_fresh queue passes priority filtered =
        let (l, got, at, held) = obtain_lem in
        let s₁ = (acquire lock_at s).1 in
        let added = queue_job_lem queue passes priority l s₁ filtered at in
        let s₂ = (queue_job b d queue_children app_name job_id queue priority s₁).1 in
        let released = release_lem l s₂ at (added.3 ∙ held) in
        rw parsed (ground (arith, got, added, released, jobs-acquire lock_at s app_name))

    -- What taking and releasing the add lock leaves at the path of the job's state: no node, or an
    -- empty one that the backend made above the lock's path.
    left_at_path :
        (l : Lock)
        → lock_path l ≡ lock_at
        → holds l (acquire lock_at s).1 ≡ true
        → let s' = (release_lock b l (acquire lock_at s).1).1 in
          (node s' path ≡ none) ⊎ (node s' path ≡ some [])
    left_at_path l at held =
        let released = release_lem l (acquire lock_at s).1 at held in
        elim (node-acquire_absent lock_at s path (lock_path_apart add app_name job_id) absent) [
          | inl none_there ↦ inl (released.1 ∙ none_there)
          | inr empty ↦ inr (released.1 ∙ empty)
        ]

    failed_run :
        (l : Lock) (queue : Bool) (priority : Option ℕ) (e : Exception)
        → obtain_lock b add app_name job_id false false s ≡ (ok (some l), (acquire lock_at s).1)
        → (release_lock b l (acquire lock_at s).1).0 ≡ ok tt
        → d.passes_filter app_name job_id ≡ raised e
        → maybe_add_subtask b d queue_children app_name job_id queue priority s
          ≡ (raised e, (release_lock b l (acquire lock_at s).1).1)
    unfolding maybe_add_subtask queue_job
    failed_run l queue priority e got released failed =
        rw (parsed, failed) (ground (arith, got, released))

    -- Where the filter raises instead, the exception goes on, the app's queue does not change, and the
    -- add lock is free again. No state is stored for the job: its node does not exist, or it is empty,
    -- where the backend made it above the path of the add lock. In the second case the next attempt to
    -- add the job returns False and changes nothing.
    pub maybe_add_raises :
        (queue : Bool) (priority : Option ℕ) (e : Exception)
        → d.passes_filter app_name job_id ≡ raised e
        → let (r, s') = maybe_add_subtask b d queue_children app_name job_id queue priority s in
          (r ≡ raised e)
          × (jobs s' app_name ≡ jobs s app_name)
          × (locked s' lock_at ≡ false)
          × ((node s' path ≡ none)
              ⊎ ((node s' path ≡ some [])
                  × (maybe_add_subtask b d queue_children app_name job_id queue priority s'
                      ≡ (ok false, s'))))
    maybe_add_raises queue priority e failed =
        let (l, got, at, held) = obtain_lem in
        let s₁ = (acquire lock_at s).1 in
        let s' = (release_lock b l s₁).1 in
        let released = release_lem l s₁ at held in
        let run = failed_run l queue priority e got released.0 failed in
        rw run (
          refl,
          released.2 ∙ jobs-acquire lock_at s app_name,
          released.3,
          elim (left_at_path l at held) [
            | inl none_there ↦ inl none_there
            | inr empty ↦ inr (
              empty,
              maybe_add_refused queue priority s' (ap (λ x. is_some x || locked s' lock_at) empty),
            )
          ],
        )
