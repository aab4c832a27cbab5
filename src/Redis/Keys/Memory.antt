-- ===== src/Redis/Keys/Memory.antt =====
-- A server in memory, which shows that the assumptions on redis can be met and runs in tests.
use stolos.Prelude.{
  ℕ, ◌+◌, refl, Bool, true, false, Option, none, some, ◌&&◌, Text, text_eq, leb, ltb, is_some,
  if◌then◌else◌,
}
use stolos.Redis.Keys.{Keys, expired}

pub record Table : Type 0 where
  pub now : ℕ
  pub values : Text → Option Text
  pub deadlines : Text → Option ℕ

abbrev pub no_keys : ℕ → Table
no_keys t = record { now = t; values = λ _. none; deadlines = λ _. none }

abbrev elapse : ℕ → Table → Table
elapse d s = record {
  now = s.now + d;
  values = λ j. if expired (s.deadlines j) (s.now + d) then none else s.values j;
  deadlines = λ j. if expired (s.deadlines j) (s.now + d) then none else s.deadlines j;
}

abbrev set : Text → Text → Table → Table
set k v s = record s {
  values = λ j. if text_eq k j then some v else s.values j;
  deadlines = λ j. if text_eq k j then none else s.deadlines j;
}

abbrev set_nx : Text → Text → Table → Bool × Table
set_nx k v s = if is_some (s.values k) then (false, s) else (true, set k v s)

abbrev set_xx : Text → Text → Table → Bool × Table
set_xx k v s = if is_some (s.values k) then (true, set k v s) else (false, s)

abbrev expireat : Text → ℕ → Table → ℕ × Table
expireat k t s = (
  if is_some (s.values k) then 1 else 0,
  record s {
    values = λ j. if text_eq k j && leb t s.now then none else s.values j;
    deadlines = λ j.
        if text_eq k j
        then (if is_some (s.values k) && ltb s.now t then some t else none)
        else s.deadlines j;
  },
)

abbrev persist : Text → Table → Table
persist k s = record s { deadlines = λ j. if text_eq k j then none else s.deadlines j }

abbrev del : Text → Table → ℕ × Table
del k s = (
  if is_some (s.values k) then 1 else 0,
  record s {
    values = λ j. if text_eq k j then none else s.values j;
    deadlines = λ j. if text_eq k j then none else s.deadlines j;
  },
)

abbrev pub memory : Keys
memory = record {
  Store = Table;
  now = λ s. s.now;
  get = λ s. s.values;
  deadline = λ s. s.deadlines;
  elapse = elapse;
  set = set;
  set_nx = set_nx;
  set_xx = set_xx;
  expireat = expireat;
  persist = persist;
  del = del;
  now-elapse = λ d s. refl;
  get-elapse = λ d s j. refl;
  deadline-elapse = λ d s j. refl;
  now-set = λ k v s. refl;
  get-set = λ k v s j. refl;
  deadline-set = λ k v s j. refl;
  set_nx_lem = λ k v s. refl;
  set_xx_lem = λ k v s. refl;
  now-expireat = λ k t s. refl;
  expireat-reply = λ k t s. refl;
  get-expireat = λ k t s j. refl;
  deadline-expireat = λ k t s j. refl;
  now-persist = λ k s. refl;
  get-persist = λ k s j. refl;
  deadline-persist = λ k s j. refl;
  now-del = λ k s. refl;
  del-reply = λ k s. refl;
  get-del = λ k s j. refl;
  deadline-del = λ k s j. refl;
}
