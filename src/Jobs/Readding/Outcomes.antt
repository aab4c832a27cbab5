-- ===== src/Jobs/Readding/Outcomes.antt =====
-- What `readd_subtask` of stolos/queue_backend/modify_job_state.py does with a job that the backend
-- knows.
use stolos.Prelude.{
  ℕ, ◌≡◌, refl, sym, ap, ◌∙◌, Bool-cases, inl, inr, Bool, true, false, not, ◌||◌, Option, none,
  some, [], ◌∷◌, ◌++◌, arith, Text, Dict, is_some, if◌then◌else◌,
}
use stolos.Jobs.Actions.{
  Action, ok, raised, pure, bind_ok, then_ok, ◌>>◌, could_not_obtain_lock, job_already_queued,
  lock_already_acquired,
}
use stolos.Jobs.Backend.{exists}
use stolos.Jobs.Paths.{
  add, get_job_path, get_lock_path, pending_state, skipped_state, starts_with-lock_path,
  lock_path_apart,
}
use stolos.Jobs.Locking.{obtain_lock}
use stolos.Jobs.Adding.{queue_job}
use stolos.Jobs.Adding.Outcomes.{queue_job_lem, release_lem, maybe_add_fresh}
use stolos.Jobs.Queues.{Queues}
use stolos.Jobs.Graph.{Graph}
use stolos.Jobs.Readding.{check_queued, reset_descendants, readd_locked, readd_subtask}

some_of : {A : Type 0} (o : Option A) → is_some o ≡ true → (a : A) × (o ≡ some a)
some_of none h = cc
some_of (some a) h = (a, refl)

none_of : {A : Type 0} (o : Option A) → is_some o ≡ false → o ≡ none
none_of none h = refl
none_of (some a) h = cc

module _ (q : Queues) (g : Graph) (queue_children : (app_name job_id : Text) → Action q.State Unit)
    (depth : ℕ) (app_name job_id : Text) (entry : Text × Text) (parts : Dict Text)
    (parsed : g.dag.parse_job_id app_name job_id ≡ ok (entry ∷ parts)) (s : q.State)
    (known : is_some (q.node s (get_job_path app_name job_id)) ≡ true) where
  open q use {
    State, Lock, backend, node, locked, holds, jobs, acquire, lock_path, is_queued, acquire_free,
    acquire_taken, node-acquire, jobs-acquire, locked-acquire,
  }

  abbrev pub path : Text
  path = get_job_path app_name job_id

  abbrev pub lock_at : Text
  lock_at = get_lock_path add app_name job_id

  -- The state with the add lock taken, in which `is_queued` is asked.
  abbrev pub locked_state : State
  locked_state = (acquire lock_at s).1

  -- Where the add lock is taken, the call raises LockAlreadyAcquired and changes nothing.
  pub readd_locked_out :
      (force reset ignore : Bool)
      → locked s lock_at ≡ true
      → readd_subtask q g queue_children depth app_name job_id force reset ignore s
        ≡ (raised lock_already_acquired, s)
  unfolding readd_subtask obtain_lock exists
  readd_locked_out force reset ignore taken = rw parsed (
      ground
        (arith, known, starts_with-lock_path add app_name job_id, acquire_taken lock_at s taken))

  module _ (free : locked s lock_at ≡ false) where
    obtain_lem :
        (l : Lock) × (obtain_lock backend add app_name job_id true true s
          ≡ (ok (some l), locked_state))
        × (lock_path l ≡ lock_at)
        × (holds l locked_state ≡ true)
    unfolding obtain_lock exists
    obtain_lem =
        let (l, got, at, held) = acquire_free lock_at s free in
        (l, ground (arith, known, starts_with-lock_path add app_name job_id, got), at, held)

    stored : (v : Text) × (node s path ≡ some v)
    stored = some_of (node s path) known

    -- Where the add lock is free and the job is queued already: with neither flag that allows it
    -- the call raises JobAlreadyQueued, with `_ignore_if_queued` it returns True; its state and its
    -- queue are as they were, and the add lock is free again.
    pub readd_queued :
        (ignore : Bool)
        → is_queued app_name job_id locked_state ≡ true
        → let (r, s') =
            readd_subtask q g queue_children depth app_name job_id false false ignore s in
          (r ≡ (if ignore then ok true else raised job_already_queued))
          × (node s' path ≡ node s path)
          × (jobs s' app_name ≡ jobs s app_name)
          × (locked s' lock_at ≡ false)
    unfolding readd_subtask readd_locked
    readd_queued ignore queued =
        let (l, got, at, held) = obtain_lem in
        let (v, there) = stored in
        let kept =
          node-acquire lock_at s path v (lock_path_apart add app_name job_id) there ∙ sym there in
        let released =
          release_lem backend g.dag queue_children app_name job_id entry parts parsed l locked_state
            at held in
        rw parsed (ground (arith, got, queued, released, jobs-acquire lock_at s app_name, kept))

    -- The job is not queued, or the call is forced.
    check_lem :
        (force ignore : Bool)
        → (force || not (is_queued app_name job_id locked_state)) ≡ true
        → (if force
              then pure false
              else check_queued q g queue_children depth app_name job_id ignore)
            locked_state
          ≡ (ok false, locked_state)
    check_lem true ignore allowed = refl
    check_lem false ignore allowed =
        let free : is_queued app_name job_id locked_state ≡ false = ground arith in rw free refl

    -- Under the lock the descendants are reset first.
    readd_locked_lem :
        (force reset ignore : Bool) (s₁ : State)
        → (force || not (is_queued app_name job_id locked_state)) ≡ true
        → reset_descendants q g queue_children depth reset app_name job_id locked_state
          ≡ (ok tt, s₁)
        → readd_locked q g queue_children depth app_name job_id force reset ignore locked_state
          ≡ queue_job backend g.dag queue_children app_name job_id true none s₁
    unfolding readd_locked
    readd_locked_lem force reset ignore s₁ allowed resets =
        let checked : Action State Bool =
          if force
          then pure false
          else check_queued q g queue_children depth app_name job_id ignore in
        let down = reset_descendants q g queue_children depth reset app_name job_id in
        let queue = λ (queued : Bool).
          if queued
          then pure tt
          else queue_job backend g.dag queue_children app_name job_id true none in
        bind_ok checked (λ queued. down >> queue queued) (check_lem force ignore allowed)
        ∙ then_ok down (queue false) resets

    -- Where the add lock is free, the job is not queued or the call is forced, the descendants, where
    -- they are to be reset, are reset without an error while the add lock is held, and the filter
    -- returns: the job becomes pending and is added once to its queue, or it becomes skipped; the call
    -- returns True, and the add lock is free again.
    pub readd_queues :
        (force reset ignore passes : Bool) (s₁ : State)
        → (force || not (is_queued app_name job_id locked_state)) ≡ true
        → reset_descendants q g queue_children depth reset app_name job_id locked_state
          ≡ (ok tt, s₁)
        → ((l : Lock) → lock_path l ≡ lock_at → holds l locked_state ≡ true → holds l s₁ ≡ true)
        → g.dag.passes_filter app_name job_id ≡ ok passes
        → let (r, s') =
            readd_subtask q g queue_children depth app_name job_id force reset ignore s in
          (r ≡ ok true)
          × (node s' path ≡ some (if passes then pending_state else skipped_state))
          × (jobs s' app_name
              ≡ (if passes then jobs s₁ app_name ++ job_id ∷ [] else jobs s₁ app_name))
          × (locked s' lock_at ≡ false)
    unfolding readd_subtask
    readd_queues force reset ignore passes s₁ allowed resets keeps filtered =
        let (l, got, at, held) = obtain_lem in
        let run = readd_locked_lem force reset ignore s₁ allowed resets in
        let added =
          queue_job_lem backend g.dag queue_children app_name job_id entry parts parsed true passes
            none l s₁ filtered at in
        let s₂ = (queue_job backend g.dag queue_children app_name job_id true none s₁).1 in
        let released =
          release_lem backend g.dag queue_children app_name job_id entry parts parsed l s₂ at
            (added.3 ∙ keeps l at held) in
        rw parsed (ground (arith, got, run, added, released))

module _ (q : Queues) (g : Graph) (queue_children : (app_name job_id : Text) → Action q.State Unit)
    (depth : ℕ) (app_name job_id : Text) (entry : Text × Text) (parts : Dict Text)
    (parsed : g.dag.parse_job_id app_name job_id ≡ ok (entry ∷ parts)) (s : q.State)
    (free : q.locked s (get_lock_path add app_name job_id) ≡ false) where
  open q use {State, backend, node, locked, jobs, acquire, is_queued, jobs-acquire}

  unknown_lem :
      node s (get_job_path app_name job_id) ≡ none
      → obtain_lock backend add app_name job_id true true s ≡ (raised could_not_obtain_lock, s)
  unfolding obtain_lock exists
  unknown_lem absent = rw absent refl

  -- A job that the backend does not know is added instead.
  readd_unknown :
      (force reset ignore passes : Bool)
      → node s (get_job_path app_name job_id) ≡ none
      → g.dag.passes_filter app_name job_id ≡ ok passes
      → let (r, s') = readd_subtask q g queue_children depth app_name job_id force reset ignore s in
        (r ≡ ok true)
        × (node s' (get_job_path app_name job_id)
            ≡ some (if passes then pending_state else skipped_state))
        × (jobs s' app_name ≡ (if passes then jobs s app_name ++ job_id ∷ [] else jobs s app_name))
        × (locked s' (get_lock_path add app_name job_id) ≡ false)
  unfolding readd_subtask
  readd_unknown force reset ignore passes absent filtered =
      let added =
        maybe_add_fresh backend g.dag queue_children app_name job_id entry parts parsed s absent
          free true passes none filtered in
      rw parsed (ground (arith, unknown_lem absent, added))

  -- A job that is not queued, whether the backend knows it or not, whose add lock is free, and whose
  -- filter returns, is added once to its queue as pending, or becomes skipped.
  pub readd_once :
      (passes : Bool)
      → is_queued app_name job_id (acquire (get_lock_path add app_name job_id) s).1 ≡ false
      → g.dag.passes_filter app_name job_id ≡ ok passes
      → let (r, s') = readd_subtask q g queue_children depth app_name job_id false false true s in
        (r ≡ ok true)
        × (node s' (get_job_path app_name job_id)
            ≡ some (if passes then pending_state else skipped_state))
        × (jobs s' app_name ≡ (if passes then jobs s app_name ++ job_id ∷ [] else jobs s app_name))
        × (locked s' (get_lock_path add app_name job_id) ≡ false)
  readd_once passes out filtered =
      elim (Bool-cases (is_some (node s (get_job_path app_name job_id)))) [
        | inl known ↦
            let lock_at = get_lock_path add app_name job_id in
            let s₁ = (acquire lock_at s).1 in
            let h =
              readd_queues q g queue_children depth app_name job_id entry parts parsed s known free
                false false true passes s₁ (ap not out) refl (λ l at held. held) filtered in
            (
              h.0,
              h.1,
              h.2
                  ∙ ap (λ x. if passes then x ++ job_id ∷ [] else x)
                      (jobs-acquire lock_at s app_name),
              h.3,
            )
        | inr unknown ↦
            readd_unknown false false true passes
              (none_of (node s (get_job_path app_name job_id)) unknown) filtered
      ]
