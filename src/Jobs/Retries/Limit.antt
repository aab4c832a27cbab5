-- ===== src/Jobs/Retries/Limit.antt =====
-- How often a job may fail: `inc_retry_count` of stolos/queue_backend/modify_job_state.py.
use stolos.Prelude.{
  ℕ, zero, suc, ◌+◌, ◌≡◌, refl, ap, ◌∙◌, Bool, true, false, Option, none, some, ◌∷◌, arith, Text,
  Dict, txt, text_eq, text_eq_iff, text_eq_self, is_some, leb, if◌then◌else◌, decimal, int_of,
  int_of-decimal,
}
use stolos.Jobs.Actions.{Action, ok, pure, ◌>>◌, ◌>>=◌, then_ok, bind_ok}
use stolos.Jobs.Backend.{Backend, get, exists, set, create}
use stolos.Jobs.Paths.{get_job_path, failed_state, join_apart}
use stolos.Jobs.Adding.{Dag, set_state, as_failed, pre_condition}
use stolos.Jobs.Retries.{retry_path, or_value_error, retry_count, count_failure, inc_retry_count}

-- What a node holds for a count: nothing before the first failure.
abbrev pub count_node : ℕ → Option Text
count_node zero = none
count_node (suc n) = some (decimal (suc n))

module _ (b : Backend) (d : Dag) (queue_children : (app_name job_id : Text) → Action b.State Unit)
    (app_name job_id : Text) (entry : Text × Text) (parts : Dict Text)
    (parsed : d.parse_job_id app_name job_id ≡ ok (entry ∷ parts)) where
  open b use {State, node, write, node-write}

  abbrev pub path : Text
  path = get_job_path app_name job_id

  abbrev pub counter : Text
  counter = retry_path b d queue_children app_name job_id

  counter_apart : text_eq counter path ≡ false
  counter_apart = join_apart path b'r' (txt "etry_count") refl

  set_state_failed :
      (s : State)
      → set_state b d queue_children app_name job_id as_failed s
        ≡ (ok tt, write path failed_state s)
  unfolding set_state
  set_state_failed s = ground arith

  -- The state after `retry_count`.
  counted : State → State
  counted s = if is_some (node s counter) then s else write counter (txt "0") s

  create_lem : (p v : Text) (s : State) → node s p ≡ none → create b p v s ≡ (ok tt, write p v s)
  unfolding create
  create_lem p v s absent = ground arith

  get_lem : (p v : Text) (s : State) → node s p ≡ some v → get b p s ≡ (ok v, s)
  unfolding get
  get_lem p v s there = rw (there, get) refl

  retry_count_lem :
      (n : ℕ) (s : State)
      → node s counter ≡ count_node n
      → retry_count b d queue_children counter s ≡ (ok n, counted s)
  unfolding retry_count counted
  retry_count_lem zero s e =
      rw (e, exists)
        (then_ok (create b counter (txt "0")) (pure 0) (create_lem counter (txt "0") s e))
  retry_count_lem (suc n) s e =
      rw (e, exists)
        (bind_ok (get b counter) (λ t. or_value_error b d queue_children (int_of t))
            (get_lem counter (decimal (suc n)) s e)
          ∙ rw int_of-decimal refl)

  counted_node :
      (s : State)
      → (is_some (node (counted s) counter) ≡ true) × (node (counted s) path ≡ node s path)
  unfolding counted
  counted_node s = ground (
    arith,
    node-write counter (txt "0") s counter,
    node-write counter (txt "0") s path,
    text_eq_self counter,
    counter_apart,
  )

  set_lem :
      (p v : Text) (s : State) → is_some (node s p) ≡ true → set b p v s ≡ (ok tt, write p v s)
  unfolding set
  set_lem p v s there = ground arith

  -- What one call leaves, where it came to the limit or not.
  marked : Bool → State → State
  marked hit s = if hit then write path failed_state s else s

  marked_lem :
      (hit : Bool) (v : Text) (s : State)
      → is_some (node s counter) ≡ true
      → let s' = marked hit s in
        (set b counter v s' ≡ (ok tt, write counter v s'))
        × (node (write counter v s') counter ≡ some v)
        × (node (write counter v s') path ≡ (if hit then some failed_state else node s path))
  unfolding marked
  marked_lem true v s there =
      let s' = write path failed_state s in
      ground (
        arith,
        set_lem counter v s',
        node-write path failed_state s counter,
        node-write path failed_state s path,
        node-write counter v s' counter,
        node-write counter v s' path,
        counter_apart,
        text_eq_iff counter path,
        text_eq_iff path counter,
        text_eq_self counter,
        text_eq_self path,
      )
  marked_lem false v s there = ground (
    arith,
    set_lem counter v s,
    node-write counter v s counter,
    node-write counter v s path,
    counter_apart,
    text_eq_self counter,
  )

  mark_lem :
      (hit : Bool) (s : State)
      → (if hit then set_state b d queue_children app_name job_id as_failed else pure tt) s
        ≡ (ok tt, marked hit s)
  unfolding marked
  mark_lem true s = set_state_failed s
  mark_lem false s = refl

  pre_condition_lem :
      {A : Type 0} (body : Action State A) (s : State)
      → pre_condition b d queue_children app_name job_id body s ≡ body s
  pre_condition_lem body s = rw parsed refl

  -- One call counts the failure, and marks the job as failed exactly if the count has come to
  -- `max_retry`.
  inc_retry_count_lem :
      (max_retry n : ℕ) (s : State)
      → node s counter ≡ count_node n
      → inc_retry_count b d queue_children app_name job_id max_retry s ≡ (
        ok (leb max_retry (n + 1)),
        write counter (decimal (n + 1)) (marked (leb max_retry (n + 1)) (counted s)),
      )
  unfolding inc_retry_count
  inc_retry_count_lem max_retry n s e =
      let hit = leb max_retry (n + 1) in
      let s₁ = counted s in
      let s₂ = marked hit s₁ in
      let v = decimal (n + 1) in
      let rest : Action State Bool = (do set b counter v; pure hit) in
      let mark : Action State Unit =
        if hit then set_state b d queue_children app_name job_id as_failed else pure tt in
      let counting : Action State ℕ = retry_count b d queue_children counter in
      let next = count_failure b d queue_children app_name job_id max_retry in
      pre_condition_lem (counting >>= next) s
      ∙ bind_ok counting next (retry_count_lem n s e)
      ∙ then_ok mark rest (mark_lem hit s₁)
      ∙ then_ok (set b counter v) (pure hit) (marked_lem hit v s₁ ((counted_node s).0)).0

  -- What that leaves in the two nodes.
  written :
      (max_retry n : ℕ) (s : State)
      → let hit = leb max_retry (n + 1) in
        let s' = write counter (decimal (n + 1)) (marked hit (counted s)) in
        (node s' counter ≡ some (decimal (n + 1)))
        × (node s' path ≡ (if hit then some failed_state else node s path))
  written max_retry n s =
      let found = counted_node s in
      let h = marked_lem (leb max_retry (n + 1)) (decimal (n + 1)) (counted s) found.0 in
      (h.1, h.2 ∙ ap (λ x. if leb max_retry (n + 1) then some failed_state else x) found.1)

  -- The state after this many failures.
  pub failures : (max_retry n : ℕ) → State → State
  failures max_retry zero s = s
  failures max_retry (suc n) s =
      (inc_retry_count b d queue_children app_name job_id max_retry (failures max_retry n s)).1

  failures_count :
      (max_retry n : ℕ) (s : State)
      → node s counter ≡ none
      → node (failures max_retry n s) counter ≡ count_node n
  unfolding failures
  failures_count max_retry zero s fresh = fresh
  failures_count max_retry (suc n) s fresh =
      let before = failures max_retry n s in
      let once = inc_retry_count_lem max_retry n before (failures_count max_retry n s fresh) in
      ap (λ r. node r.1 counter) once
      ∙ (written max_retry n before).0
      ∙ ap (λ k. some (decimal k)) (omega arith)

  -- For a job whose id has parts and that starts without a retry count, the call for failure
  -- number n + 1 returns True exactly if n + 1 has come to `max_retry`, and stores the count n + 1;
  -- in that case it stores the job as failed, and leaves its state alone otherwise.
  pub retry_limit :
      (max_retry n : ℕ) (s : State)
      → node s counter ≡ none
      → let before = failures max_retry n s in
        let (r, after) = inc_retry_count b d queue_children app_name job_id max_retry before in
        (r ≡ ok (leb max_retry (n + 1)))
        × (node after counter ≡ some (decimal (n + 1)))
        × (node after path
            ≡ (if leb max_retry (n + 1) then some failed_state else node before path))
  retry_limit max_retry n s fresh =
      let before = failures max_retry n s in
      rw (inc_retry_count_lem max_retry n before (failures_count max_retry n s fresh))
        (refl, (written max_retry n before).0, (written max_retry n before).1)
