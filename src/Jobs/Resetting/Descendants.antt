-- ===== src/Jobs/Resetting/Descendants.antt =====
-- What `_recursively_reset_child_task_state` of stolos/queue_backend/modify_job_state.py may change,
-- from one set of visited jobs to the next.
use stolos.Prelude.{
  ◌≡◌, refl, sym, ap, ◌∙◌, ◌⊎◌, inl, inr, Bool-cases, true, false, some, ◌∷◌, arith, Text, Dict,
  text_eq_iff, is_some,
}
use stolos.Jobs.Actions.{ok}
use stolos.Jobs.Generators.{Generated, stops, fails, yields}
use stolos.Jobs.Backend.{Backend}
use stolos.Jobs.Paths.{get_job_path, pending_state}
use stolos.Jobs.Graph.{Graph}
use stolos.Jobs.Resetting.{Keys, mem_key}

-- The job id has parts.
abbrev pub HasParts : Graph → (app job : Text) → Type 0
HasParts g app job =
    (entry : Text × Text) × (parts : Dict Text) × (g.dag.parse_job_id app job ≡ ok (entry ∷ parts))

-- The generator yields jobs whose ids have parts, and then stops.
abbrev pub AreValid : Graph → Generated (Text × Text) → Type 0
AreValid g stops = Unit
AreValid g (fails e) = ⊥
AreValid g (yields (app, job) rest) = HasParts g app job × AreValid g rest

-- The children of a job whose id has parts are listed without an error, and their ids have parts.
abbrev pub IsValid : Graph → Type 0
IsValid g = (app job : Text) → HasParts g app job → AreValid g (g.get_children app job)

-- Each job that the generator yields is among the keys.
abbrev pub AreIn : Keys → Generated (Text × Text) → Type 0
AreIn keys stops = Unit
AreIn keys (fails e) = Unit
AreIn keys (yields (app, job) rest) = (mem_key app job keys ≡ true) × AreIn keys rest

pub AreIn-grows :
    (keys keys' : Keys)
    → ((app job : Text) → mem_key app job keys ≡ true → mem_key app job keys' ≡ true)
    → (items : Generated (Text × Text)) → AreIn keys items
    → AreIn keys' items
AreIn-grows keys keys' grows stops h = tt
AreIn-grows keys keys' grows (fails e) h = tt
AreIn-grows keys keys' grows (yields (app, job) rest) h =
    (grows app job h.0, AreIn-grows keys keys' grows rest h.1)

module _ (b : Backend) (g : Graph) where
  open b use {State, node, jobs}

  -- What a call that was given `keys` and returned `keys'` did: nodes were set to pending, where they
  -- existed, and nothing else; of each new key that the backend knows, the node is pending and the
  -- children are among the keys.
  pub record Resets (keys keys' : Keys) (s s' : State) : Type 0 where
    pub grows : (app job : Text) → mem_key app job keys ≡ true → mem_key app job keys' ≡ true
    pub nodes :
        (p : Text)
        → (node s' p ≡ node s p) ⊎ ((is_some (node s p) ≡ true) × (node s' p ≡ some pending_state))
    pub reset :
        (app job : Text)
        → mem_key app job keys' ≡ true
        → mem_key app job keys ≡ false
        → is_some (node s (get_job_path app job)) ≡ true
        → (node s' (get_job_path app job) ≡ some pending_state)
          × AreIn keys' (g.get_children app job)
    pub queues : (a : Text) → jobs s' a ≡ jobs s a

  pub Resets-refl : (keys : Keys) (s : State) → Resets keys keys s s
  Resets-refl keys s = record {
    grows = λ app job h. h;
    nodes = λ p. inl refl;
    reset = λ app job m n k. absurd (ground arith);
    queues = λ a. refl;
  }

  pub some-nodes :
      {keys keys' : Keys} {s s' : State}
      → Resets keys keys' s s'
      → (p : Text) → is_some (node s p) ≡ true
      → is_some (node s' p) ≡ true
  some-nodes r p h = elim (r.nodes p) [
    | inl same ↦ ap is_some same ∙ h
    | inr reset ↦ ap is_some reset.1
  ]

  -- Once pending, a node stays so.
  pub pending-nodes :
      {keys keys' : Keys} {s s' : State}
      → Resets keys keys' s s'
      → (p : Text) → node s p ≡ some pending_state
      → node s' p ≡ some pending_state
  pending-nodes r p h = elim (r.nodes p) [ inl same ↦ same ∙ h | inr reset ↦ reset.1 ]

  nodes_trans :
      {k k' k'' : Keys} {s s' s'' : State}
      → Resets k k' s s'
      → Resets k' k'' s' s''
      → (p : Text)
      → (node s'' p ≡ node s p) ⊎ ((is_some (node s p) ≡ true) × (node s'' p ≡ some pending_state))
  nodes_trans r r' p = elim (r.nodes p) [
    | inl same ↦ elim (r'.nodes p) [
      | inl same' ↦ inl (same' ∙ same)
      | inr reset ↦ inr (ap is_some (sym same) ∙ reset.0, reset.1)
    ]
    | inr reset ↦ inr (reset.0, pending-nodes r' p reset.1)
  ]

  pub Resets-trans :
      {k k' k'' : Keys} {s s' s'' : State}
      → Resets k k' s s'
      → Resets k' k'' s' s''
      → Resets k k'' s s''
  Resets-trans {k} {k'} {k''} r r' = record {
    grows = λ app job h. r'.grows app job (r.grows app job h);
    nodes = nodes_trans r r';
    reset = λ app job m n known. elim (Bool-cases (mem_key app job k')) [
      | inl first ↦
          let h = r.reset app job first n known in
          (
            pending-nodes r' (get_job_path app job) h.0,
            AreIn-grows k' k'' r'.grows (g.get_children app job) h.1,
          )
      | inr later ↦ r'.reset app job m later (some-nodes r (get_job_path app job) known)
    ];
    queues = λ a. r'.queues a ∙ r.queues a;
  }

  pub mem_key-cons :
      (app job a j : Text) (keys : Keys)
      → mem_key a j ((app, job) ∷ keys) ≡ true
      → mem_key a j keys ≡ false
      → (a ≡ app) × (j ≡ job)
  mem_key-cons app job a j keys m n = ground (arith, text_eq_iff a app, text_eq_iff j job)

  pub mem_key-grows :
      (app job a j : Text) (keys : Keys)
      → mem_key a j keys ≡ true
      → mem_key a j ((app, job) ∷ keys) ≡ true
  mem_key-grows app job a j keys m = ground arith

  pub mem_key-head : (app job : Text) (keys : Keys) → mem_key app job ((app, job) ∷ keys) ≡ true
  mem_key-head app job keys = ground (arith, text_eq_iff app app, text_eq_iff job job)
