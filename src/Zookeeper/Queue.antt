-- ===== src/Zookeeper/Queue.antt =====
-- stolos/queue_backend/qbcli_zookeeper.py: class LockingQueue. The queue object of kazoo is a
-- parameter where the methods only hand its answers on.
use mathlib.Core.Logic.{◌↔◌}
use stolos.Prelude.{
  ℕ, ◌+◌, ◌-◌, ◌≤◌, ◌≡◌, refl, ◌∙◌, ap, Bool, true, false, Option, none, some, List, [], ◌∷◌, ◌++◌,
  arith, Text, txt, text_eq, mem_text, is_some, if◌then◌else◌, Option-cases, Bool-cases,
  text_eq_iff, text_eq_self, sym, inl, inr,
}
use stolos.Jobs.Actions.{Result, ok, raised, user_warning, attribute_error}
use stolos.Zookeeper.Client.{Client}

unfoldable pub consume : (consumed : Bool) → Result Unit
consume consumed = if consumed then ok tt else raised user_warning

-- `os.path.join`, for paths without a slash at an end
abbrev pub join : (path name : Text) → Text
join path name = path ++ txt "/" ++ name

module _ (zk : Client) where
  open zk use {Tree, stat, get_children}

  -- `entries - taken`, where a number is below 0 only if more are taken than there are entries;
  -- numChildren of no node is an AttributeError.
  abbrev pub not_taken : ℕ → Option ℕ → Result ℕ
  not_taken entries none = raised attribute_error
  not_taken entries (some taken) = ok (entries - taken)

  abbrev pub queued_size : (taken : Bool) → Option ℕ → Option ℕ → Result ℕ
  queued_size taken none t = ok 0
  queued_size taken (some entries) t = if taken then ok entries else not_taken entries t

  abbrev pub taken_size : Option ℕ → Result ℕ
  taken_size none = ok 0
  taken_size (some taken) = ok taken

  unfoldable pub size : (path : Text) → (queued taken : Bool) → Tree → Result ℕ
  size path queued taken t =
      let entries = stat t (join path (txt "entries")) in
      let held = stat t (join path (txt "taken")) in
      if queued
      then queued_size taken entries held
      else if taken
      then taken_size held
      else raised attribute_error

  -- The values of nodes, none where one of them is gone.
  abbrev pub and_value : Option Text → Option (List Text) → Option (List Text)
  and_value (some v) (some vs) = some (v ∷ vs)
  and_value _ _ = none

  unfoldable pub values_of : (entries : Text) → List Text → Tree → Option (List Text)
  values_of entries [] t = some []
  values_of entries (name ∷ names) t =
      and_value (zk.get t (join entries name)) (values_of entries names t)

  abbrev pub or_empty : Option (List Text) → List Text
  or_empty none = []
  or_empty (some vs) = vs

  abbrev listed_values : (entries : Text) → Tree → Option (List Text) → List Text
  unfolding values_of
  listed_values entries t none = []
  listed_values entries t (some names) = or_empty (values_of entries names t)

  -- the `items` of `is_queued`: NoNodeError is caught
  unfoldable pub entry_values : (entries : Text) → Tree → List Text
  unfolding listed_values
  entry_values entries t = listed_values entries t (get_children t entries)

  unfoldable pub is_queued : (path value : Text) → Tree → Bool
  unfolding entry_values
  is_queued path value t = mem_text value (entry_values (join path (txt "entries")) t)

  module _ (path : Text) (t : Tree) (entries taken : ℕ)
      (has_entries : stat t (join path (txt "entries")) ≡ some entries)
      (has_taken : stat t (join path (txt "taken")) ≡ some taken) where
    -- Where the queue has its two nodes, and no more items are taken than there are: the queued and
    -- the taken items together are all items, and asking for neither raises AttributeError.
    pub size_parts :
        taken ≤ entries
        → (n : ℕ) × (m : ℕ) × (size path true false t ≡ ok n)
          × (size path false true t ≡ ok m)
          × (size path true true t ≡ ok (n + m))
          × (size path false false t ≡ raised attribute_error)
    unfolding size
    size_parts fits = (
      entries - taken,
      taken,
      rw (has_entries, has_taken) refl,
      rw has_taken refl,
      rw has_entries (ap ok (omega arith)),
      refl,
    )

  -- Each of the names is the name of a node.
  abbrev pub AreThere : Text → Tree → List Text → Type 0
  AreThere entries t [] = Unit
  AreThere entries t (name ∷ names) =
      (is_some (zk.get t (join entries name)) ≡ true) × AreThere entries t names

  abbrev HasEntry : Text → Text → Tree → List Text → Type 0
  HasEntry value entries t names =
      (name : Text) × (mem_text name names ≡ true) × (zk.get t (join entries name) ≡ some value)

  abbrev AreValues : Text → Text → Tree → List Text → List Text → Type 0
  AreValues value entries t names vs =
      (values_of entries names t ≡ some vs)
      × ((mem_text value vs ≡ true) ↔ HasEntry value entries t names)

  AreValues-cons :
      (value entries name v : Text) (names vs : List Text) (t : Tree)
      → zk.get t (join entries name) ≡ some v
      → AreValues value entries t names vs
      → AreValues value entries t (name ∷ names) (v ∷ vs)
  unfolding values_of
  AreValues-cons value entries name v names vs t held (e, iff) = (
    rw (held, e) refl,
    (
      λ m. elim (Bool-cases (text_eq value v)) [
        | inl same ↦ (
          name,
          ground (arith, text_eq_self name),
          held ∙ ap some (sym ((text_eq_iff value v).0 same)),
        )
        | inr other ↦
            let (j, mj, hj) = iff.0 (ground (arith, m, other)) in (j, ground (arith, mj), hj)
      ],
      λ (j, mj, hj). elim (Bool-cases (text_eq j name)) [
        | inl here ↦
            let same : value ≡ v = cc (held, hj, (text_eq_iff j name).0 here) in
            ground (arith, (text_eq_iff value v).1 same)
        | inr later ↦
            let m : mem_text value vs ≡ true = iff.1 (j, ground (arith, mj, later), hj) in
            ground (arith, m)
      ],
    ),
  )

  all_values :
      (value entries : Text) (names : List Text) (t : Tree)
      → AreThere entries t names
      → (vs : List Text) × AreValues value entries t names vs
  unfolding values_of
  all_values value entries [] t h = ([], (refl, (λ m. cc, λ (name, m, held). cc)))
  all_values value entries (name ∷ names) t h =
      let (vs, are) = all_values value entries names t h.1 in
      elim (Option-cases (zk.get t (join entries name))) [
        | inl gone ↦ cc (rw gone at (h.0))
        | inr (v, held) ↦ (v ∷ vs, AreValues-cons value entries name v names vs t held are)
      ]

  -- Where the names of the entries are those of nodes, a value is queued exactly if one of the nodes
  -- holds it.
  pub is_queued_iff :
      (path value : Text) (names : List Text) (t : Tree)
      → get_children t (join path (txt "entries")) ≡ some names
      → AreThere (join path (txt "entries")) t names
      → (is_queued path value t ≡ true) ↔ (
          (name : Text) × (mem_text name names ≡ true)
          × (zk.get t (join (join path (txt "entries")) name) ≡ some value))
  unfolding is_queued
  is_queued_iff path value names t listed there =
      let entries = join path (txt "entries") in
      let (vs, are) = all_values value entries names t there in
      let found : is_queued path value t ≡ mem_text value vs =
        ap (λ o. mem_text value (listed_values entries t o)) listed
        ∙ ap (λ o. mem_text value (or_empty o)) are.0 in
      rw found are.1
