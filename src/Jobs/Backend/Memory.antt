-- ===== src/Jobs/Backend/Memory.antt =====
-- A backend in memory, which shows that the promises of a backend can be met and runs in tests.
use stolos.Prelude.{
  ℕ, ◌≡◌, refl, ◌∙◌, inl, Bool, true, false, not, ◌&&◌, ◌||◌, Option, none, some, List, [], ◌∷◌,
  ◌++◌, arith, Text, text_eq, text_eq_self, text_eq_iff, if◌then◌else◌,
}
use stolos.Jobs.Backend.{Backend}

pub record Tables : Type 0 where
  pub nodes : Text → Option Text
  pub locks : Text → Bool
  pub queues : Text → List Text
  pub counters : Text → ℕ
  pub item : Option Text

abbrev pub no_jobs : Tables
no_jobs = record {
  nodes = λ _. none;
  locks = λ _. false;
  queues = λ _. [];
  counters = λ _. 0;
  item = none;
}

abbrev write : Text → Text → Tables → Tables
write p v s = record s { nodes = λ j. if text_eq p j then some v else s.nodes j }

abbrev acquire : Text → Tables → Option Text × Tables
acquire p s =
    if s.locks p then (none, s) else (some p, record s { locks = λ j. s.locks j || text_eq p j })

abbrev release : Text → Tables → Bool × Tables
release l s = (s.locks l, record s { locks = λ j. s.locks j && not (text_eq l j) })

abbrev put : Text → Text → Tables → Tables
put app job s = record s {
  queues = λ a. if text_eq app a then s.queues a ++ job ∷ [] else s.queues a;
}

pub acquire_free :
    (p : Text) (s : Tables)
    → s.locks p ≡ false
    → (l : Text) × ((acquire p s).0 ≡ some l) × (l ≡ p) × ((acquire p s).1.locks l ≡ true)
acquire_free p s h = (p, ground arith, refl, ground (arith, text_eq_self p))

pub acquire_taken : (p : Text) (s : Tables) → s.locks p ≡ true → acquire p s ≡ (none, s)
acquire_taken p s h = ground arith

pub locked-acquire :
    (p : Text) (s : Tables) (j : Text) → (acquire p s).1.locks j ≡ (s.locks j || text_eq p j)
locked-acquire p s j = ground (arith, text_eq_iff p j)

pub node-acquire : (p : Text) (s : Tables) (j : Text) → (acquire p s).1.nodes j ≡ s.nodes j
node-acquire p s j = ground arith

pub jobs-acquire : (p : Text) (s : Tables) (a : Text) → (acquire p s).1.queues a ≡ s.queues a
jobs-acquire p s a = ground arith

abbrev pub memory : Backend
memory = record {
  State = Tables;
  Lock = Text;
  node = λ s. s.nodes;
  locked = λ s. s.locks;
  holds = λ l s. s.locks l;
  lock_path = λ l. l;
  jobs = λ s. s.queues;
  write = write;
  acquire = acquire;
  release = release;
  put = λ app job _. put app job;
  node-write = λ p v s j. refl;
  locked-write = λ p v s j _. refl;
  holds-write = λ p v s l _. refl;
  jobs-write = λ p v s a. refl;
  acquire_free = acquire_free;
  acquire_taken = acquire_taken;
  node-acquire = λ p s j v _ there. node-acquire p s j ∙ there;
  node-acquire_absent = λ p s j _ absent. inl (node-acquire p s j ∙ absent);
  locked-acquire = locked-acquire;
  jobs-acquire = jobs-acquire;
  release_held = λ l s h. h;
  node-release = λ l s j _. refl;
  locked-release = λ l s j _. refl;
  jobs-release = λ l s a. refl;
  node-put = λ app job _ s j. refl;
  locked-put = λ app job _ s j. refl;
  holds-put = λ app job _ s l. refl;
  jobs-put = λ app job _ s a. refl;
}
