-- ===== src/Jobs/Resetting/Termination.antt =====
-- `_recursively_reset_child_task_state` of stolos/queue_backend/modify_job_state.py comes to an end.
use stolos.Prelude.{
  ℕ, zero, suc, ◌<◌, ◌≡◌, refl, sym, ap, ◌∙◌, ◌⊎◌, inl, inr, Bool-cases, true, false, some, ◌∷◌,
  arith, Text, text_eq, text_eq_iff, text_eq_self, is_some,
}
use stolos.Jobs.Actions.{Action, ok, bind_ok, then_ok}
use stolos.Jobs.Generators.{Generated, stops, fails, yields}
use stolos.Jobs.Backend.{Backend}
use stolos.Jobs.Paths.{get_job_path, pending_state}
use stolos.Jobs.Adding.{set_state, as_pending}
use stolos.Jobs.Adding.Outcomes.{set_state_pending}
use stolos.Jobs.Graph.{Graph}
use stolos.Jobs.Resetting.{Keys, mem_key, Reset, reset_child, reset_each, reset_children}
use stolos.Jobs.Resetting.Descendants.{
  HasParts, AreValid, IsValid, AreIn, Resets, Resets-refl, Resets-trans, pending-nodes,
  mem_key-cons, mem_key-grows, mem_key-head,
}

-- Each app that the generator yields ranks below `n`.
abbrev pub AreBelow : (rank : Text → ℕ) → ℕ → Generated (Text × Text) → Type 0
AreBelow rank n stops = Unit
AreBelow rank n (fails e) = Unit
AreBelow rank n (yields (app, job) rest) = (rank app < n) × AreBelow rank n rest

-- The apps of a job's children rank below its own: what a dag without cycles has.
abbrev pub IsRanked : (rank : Text → ℕ) → Graph → Type 0
IsRanked rank g = (app job : Text) → AreBelow rank (rank app) (g.get_children app job)

module _ (b : Backend) (g : Graph) (queue_children : (app_name job_id : Text) → Action b.State Unit)
    (rank : Text → ℕ) where
  open b use {State, node, write, node-write, jobs-write}

  -- A call for a job returns, and its children are then among the keys.
  abbrev Ends : Reset b g queue_children → (app job : Text) → Keys → State → Type 0
  Ends f app job keys s =
      (keys' : Keys) × (s' : State) × (f app job keys s ≡ (ok keys', s'))
      × Resets b g keys keys' s s'
      × AreIn keys' (g.get_children app job)

  abbrev EndsBelow : ℕ → Reset b g queue_children → Type 0
  EndsBelow n f =
      (app job : Text) (keys : Keys) (s : State)
      → rank app < n
      → HasParts g app job
      → Ends f app job keys s

  module _ (app job : Text) (keys : Keys) (s : State) where
    abbrev path : Text
    path = get_job_path app job

    -- A job that the backend does not know is only noted.
    noted :
        mem_key app job keys ≡ false
        → is_some (node s path) ≡ false
        → Resets b g keys ((app, job) ∷ keys) s s
    noted new unknown = record {
      grows = λ a j m. mem_key-grows b g app job a j keys m;
      nodes = λ p. inl refl;
      reset = λ a j m n known.
          let (ea, ej) = mem_key-cons b g app job a j keys m n in
          let same : is_some (node s (get_job_path a j)) ≡ false =
            ap (λ x. is_some (node s (get_job_path x j))) ea
            ∙ ap (λ x. is_some (node s (get_job_path app x))) ej
            ∙ unknown in
          absurd (ground (arith, same, known));
      queues = λ a. refl;
    }

    abbrev written : State
    written = write path pending_state s

    written-same : (p : Text) → text_eq path p ≡ false → node written p ≡ node s p
    written-same p other = node-write path pending_state s p ∙ rw other refl

    written-path : node written path ≡ some pending_state
    written-path = node-write path pending_state s path ∙ rw (text_eq_self path) refl

    written-Resets :
        is_some (node s path) ≡ true
        → (p : Text)
        → (node written p ≡ node s p)
          ⊎ ((is_some (node s p) ≡ true) × (node written p ≡ some pending_state))
    written-Resets known p = elim (Bool-cases (text_eq path p)) [
      | inl here ↦
          let e : path ≡ p = (text_eq_iff path p).0 here in
          inr
            (ap (λ x. is_some (node s x)) (sym e) ∙ known, ap (node written) (sym e) ∙ written-path)
      | inr other ↦ inl (written-same p other)
    ]

    written-known :
        is_some (node s path) ≡ true
        → (p : Text) → is_some (node s p) ≡ true
        → is_some (node written p) ≡ true
    written-known known p there = elim (written-Resets known p) [
      | inl same ↦ ap is_some same ∙ there
      | inr reset ↦ ap is_some reset.1
    ]

    -- A job that the backend knows is set to pending, before its children are visited.
    module _ (keys' : Keys) (s' : State) (known : is_some (node s path) ≡ true)
        (r : Resets b g ((app, job) ∷ keys) keys' written s')
        (children : AreIn keys' (g.get_children app job)) where
      visited-nodes :
          (p : Text)
          → (node s' p ≡ node s p)
            ⊎ ((is_some (node s p) ≡ true) × (node s' p ≡ some pending_state))
      visited-nodes p = elim (written-Resets known p) [
        | inl same ↦ elim (r.nodes p) [
          | inl same' ↦ inl (same' ∙ same)
          | inr reset ↦ inr (ap is_some (sym same) ∙ reset.0, reset.1)
        ]
        | inr reset ↦ inr (reset.0, pending-nodes b g r p reset.1)
      ]

      visited-reset :
          (a j : Text)
          → mem_key a j keys' ≡ true
          → mem_key a j keys ≡ false
          → is_some (node s (get_job_path a j)) ≡ true
          → (node s' (get_job_path a j) ≡ some pending_state) × AreIn keys' (g.get_children a j)
      visited-reset a j m n there = elim (Bool-cases (mem_key a j ((app, job) ∷ keys))) [
        | inl here ↦
            let (ea, ej) = mem_key-cons b g app job a j keys here n in
            rw (ea, ej) (pending-nodes b g r path written-path, children)
        | inr later ↦ r.reset a j m later (written-known known (get_job_path a j) there)
      ]

      visited : Resets b g keys keys' s s'
      visited = record {
        grows = λ a j m. r.grows a j (mem_key-grows b g app job a j keys m);
        nodes = visited-nodes;
        reset = visited-reset;
        queues = λ a. r.queues a ∙ jobs-write path pending_state s a;
      }

  reset_child-ends :
      (n : ℕ) (f : Reset b g queue_children)
      → EndsBelow n f
      → (app job : Text) (keys : Keys) (s : State) → rank app < n
      → HasParts g app job
      → (keys' : Keys) × (s' : State) × (reset_child b g queue_children f app job keys s
          ≡ (ok keys', s'))
        × Resets b g keys keys' s s'
        × (mem_key app job keys' ≡ true)
  unfolding reset_child
  reset_child-ends n f ends app job keys s below (entry, parts, parsed) =
      let head = mem_key-head b g app job keys in
      elim (Bool-cases (mem_key app job keys)) [
        | inl seen ↦ (keys, s, rw seen refl, Resets-refl b g keys s, seen)
        | inr new ↦ elim (Bool-cases (is_some (node s (get_job_path app job)))) [
          | inr unknown ↦
              ((app, job) ∷ keys, s, rw (new, unknown) refl, noted app job keys s new unknown, head)
          | inl known ↦
              let (keys', s', run, r, children) =
                ends app job ((app, job) ∷ keys) (written app job keys s) below
                  (entry, parts, parsed) in
              let set : Action State Unit = set_state b g.dag queue_children app job as_pending in
              (
                keys',
                s',
                rw (new, known)
                    (then_ok set (f app job ((app, job) ∷ keys))
                        (set_state_pending b g.dag queue_children app job entry parts parsed s)
                      ∙ run),
                visited app job keys s keys' s' known r children,
                r.grows app job head,
              )
        ]
      ]

  reset_each-ends :
      (n : ℕ) (f : Reset b g queue_children)
      → EndsBelow n f
      → (items : Generated (Text × Text)) (keys : Keys) (s : State) → AreBelow rank n items
      → AreValid g items
      → (keys' : Keys) × (s' : State) × (reset_each b g queue_children f items keys s
          ≡ (ok keys', s'))
        × Resets b g keys keys' s s'
        × AreIn keys' items
  unfolding reset_each
  reset_each-ends n f ends stops keys s below valid = (keys, s, refl, Resets-refl b g keys s, tt)
  reset_each-ends n f ends (fails e) keys s below valid = absurd valid
  reset_each-ends n f ends (yields (app, job) rest) keys s below valid =
      let (k₁, s₁, run₁, r₁, there) = reset_child-ends n f ends app job keys s below.0 valid.0 in
      let (k₂, s₂, run₂, r₂, others) = reset_each-ends n f ends rest k₁ s₁ below.1 valid.1 in
      (
        k₂,
        s₂,
        bind_ok (reset_child b g queue_children f app job keys)
              (reset_each b g queue_children f rest) run₁
            ∙ run₂,
        Resets-trans b g r₁ r₂,
        (r₂.grows app job there, others),
      )

  reset_children-ends :
      IsRanked rank g
      → IsValid g
      → (depth : ℕ) → EndsBelow depth (reset_children b g queue_children depth)
  unfolding reset_children
  reset_children-ends ranked valid zero app job keys s below parts = absurd (omega arith)
  reset_children-ends ranked valid (suc n) app job keys s below parts =
      reset_each-ends (rank app) (reset_children b g queue_children n)
        (λ a j ks t lower. reset_children-ends ranked valid n a j ks t (omega arith))
        (g.get_children app job) keys s (ranked app job) (valid app job parts)

  -- In a dag whose apps are ranked, for a job whose id has parts, where the children of each such
  -- job are listed without an error and have such ids: with a depth above the rank of the app the
  -- recursion over the descendants returns. The children of the job are then among the visited
  -- jobs, and so are the children of each job that the call has visited and the backend knew; such a
  -- job is pending. Any other node is as it was, or has become pending where it existed, and no
  -- queue has changed.
  pub reset_children_returns :
      IsRanked rank g
      → IsValid g
      → (depth : ℕ) (app job : Text) (keys : Keys) (s : State) → rank app < depth
      → HasParts g app job
      → (keys' : Keys) × (s' : State) × (reset_children b g queue_children depth app job keys s
          ≡ (ok keys', s'))
        × Resets b g keys keys' s s'
        × AreIn keys' (g.get_children app job)
  reset_children_returns ranked valid depth app job keys s enough parts =
      reset_children-ends ranked valid depth app job keys s enough parts
