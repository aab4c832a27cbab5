-- ===== src/Jobs/Paths.antt =====
-- stolos/queue_backend/shared.py: where the state and the locks of a job are kept.
use stolos.Prelude.{
  ℕ, ◌<◌, ◌≡◌, refl, Bool, true, false, [], ◌∷◌, ◌++◌, arith, Text, txt, text_eq, text_eq_ne, ◌==◌,
  if◌then◌else◌, length, length-append, ap, starts_with,
}

-- The names under which the states are stored.
abbrev pub pending_state : Text
pending_state = txt "pending"

abbrev pub completed_state : Text
completed_state = txt "completed"

abbrev pub failed_state : Text
failed_state = txt "failed"

abbrev pub skipped_state : Text
skipped_state = txt "skipped"

abbrev pub ends_with : ℕ → Text → Bool
ends_with c [] = false
ends_with c (x ∷ []) = x == c
ends_with c (x ∷ y ∷ t) = ends_with c (y ∷ t)

abbrev is_absolute : Text → Bool
is_absolute [] = false
is_absolute (c ∷ t) = c == b'/'

abbrev is_empty : Text → Bool
is_empty [] = true
is_empty (c ∷ t) = false

-- `os.path.join` of two parts
unfoldable pub join : Text → Text → Text
join a b =
    if is_absolute b
    then b
    else if is_empty a
    then b
    else if ends_with b'/' a
    then a ++ b
    else a ++ b'/' ∷ b

unfoldable pub get_job_path : (app_name job_id : Text) → Text
get_job_path app_name job_id = join (join app_name (txt "all_subtasks")) job_id

pub data LockType : Type 0 where
  execute add : LockType

abbrev pub lock_name : LockType → Text
lock_name execute = txt "execute_lock"
lock_name add = txt "add_lock"

unfoldable pub get_lock_path : LockType → (app_name job_id : Text) → Text
get_lock_path typ app_name job_id = join (get_job_path app_name job_id) (lock_name typ)

text_eq-longer : (a b : Text) → length a < length b → text_eq b a ≡ false
text_eq-longer a b h = text_eq_ne b a (λ e. absurd (omega (arith, ap length e)))

-- A name joined to a path gives another, longer path.
pub join_apart :
    (a : Text) (c : ℕ) (cs : Text) → (c == b'/') ≡ false → text_eq (join a (c ∷ cs)) a ≡ false
unfolding join
join_apart a c cs relative =
    text_eq-longer a (join a (c ∷ cs))
      (ground (arith, length-append a (c ∷ cs), length-append a (b'/' ∷ c ∷ cs)))

-- The paths of a job's own lock, and of its counters, differ from the path of its state.
pub lock_path_apart :
    (typ : LockType) (app_name job_id : Text)
    → text_eq (get_lock_path typ app_name job_id) (get_job_path app_name job_id) ≡ false
unfolding get_lock_path
lock_path_apart execute app_name job_id =
    join_apart (get_job_path app_name job_id) b'e' (txt "xecute_lock") refl
lock_path_apart add app_name job_id =
    join_apart (get_job_path app_name job_id) b'a' (txt "dd_lock") refl

starts_with-append : (a b : Text) → starts_with a (a ++ b) ≡ true
starts_with-append [] b = refl
starts_with-append (c ∷ a) b = ground (arith, starts_with-append a b)

starts_with-join :
    (a : Text) (c : ℕ) (cs : Text) → (c == b'/') ≡ false → starts_with a (join a (c ∷ cs)) ≡ true
unfolding join
starts_with-join a c cs relative =
    ground (arith, starts_with-append a (c ∷ cs), starts_with-append a (b'/' ∷ c ∷ cs))

-- `assert path.startswith(_path)` holds for the path of every lock.
pub starts_with-lock_path :
    (typ : LockType) (app_name job_id : Text)
    → starts_with (get_job_path app_name job_id) (get_lock_path typ app_name job_id) ≡ true
unfolding get_lock_path
starts_with-lock_path execute app_name job_id =
    starts_with-join (get_job_path app_name job_id) b'e' (txt "xecute_lock") refl
starts_with-lock_path add app_name job_id =
    starts_with-join (get_job_path app_name job_id) b'a' (txt "dd_lock") refl

text_eq-append : (p a b : Text) → text_eq (p ++ a) (p ++ b) ≡ text_eq a b
text_eq-append [] a b = refl
text_eq-append (c ∷ p) a b = ground (arith, text_eq-append p a b)

-- Two names below one path give two paths.
pub join_names_apart :
    (p a b : Text)
    → is_absolute a ≡ false
    → is_absolute b ≡ false
    → text_eq a b ≡ false
    → text_eq (join p a) (join p b) ≡ false
unfolding join
join_names_apart p a b ra rb apart =
    ground (arith, text_eq-append p a b, text_eq-append p (b'/' ∷ a) (b'/' ∷ b))
