-- ===== src/Redis/Queue/Naming.antt =====
-- The hashed keys of stolos/queue_backend/qbcli_redis.py: `put` formats the priority, the time and
-- the value into one text, and `get` takes the value out again.
use stolos.Prelude.{
  ℕ, ◌<◌, ◌≡◌, refl, Bool, true, false, some, [], ◌∷◌, ◌++◌, arith, ◌∙◌, ap, ◌&&◌, ◌||◌, ◌==◌, ltb,
  Text, has_char, split_part, split_zero, decimal, decimal-has_char,
}
use mathlib.Core.List.{append_assoc}
use stolos.Redis.Queue.{hashed_key, item_of, third}

-- What `get` unpacks of a hashed key is the value that was put, whatever characters it holds, for
-- a time that is printed without a colon.
item_of-hashed_key :
    (priority : ℕ) (stamp value : Text)
    → has_char b':' stamp ≡ false
    → item_of (hashed_key priority stamp value) ≡ some value
unfolding item_of hashed_key
item_of-hashed_key priority stamp value plain = ap third (
    split_part b':' 1 (decimal priority) (stamp ++ b':' ∷ value)
      (decimal-has_char b':' priority (omega arith))
    ∙ ap (◌∷◌ (decimal priority))
        (split_part b':' 0 stamp value plain ∙ ap (◌∷◌ stamp) (split_zero (b':' ∷ []) value)))

-- The order of texts by their bytes, in which ZRANGE lists members of equal score.
abbrev pub byte_lt : Text → Text → Bool
byte_lt [] [] = false
byte_lt [] (y ∷ ys) = true
byte_lt (x ∷ xs) [] = false
byte_lt (x ∷ xs) (y ∷ ys) = ltb x y || ((x == y) && byte_lt xs ys)

byte_lt-append : (p a b : Text) → byte_lt (p ++ a) (p ++ b) ≡ byte_lt a b
byte_lt-append [] a b = refl
byte_lt-append (c ∷ p) a b = ground (arith, byte_lt-append p a b)

-- The hashed key of a priority whose digits go on where those of another end is the smaller one in
-- the order of bytes, whatever the times: 100 comes before 1 and 10.
pub hashed_key-lt_of_longer :
    (low high : ℕ) (c : ℕ) (rest stamp value stamp' value' : Text)
    → decimal high ≡ decimal low ++ c ∷ rest
    → c < b':'
    → byte_lt (hashed_key high stamp value) (hashed_key low stamp' value') ≡ true
unfolding hashed_key
hashed_key-lt_of_longer low high c rest stamp value stamp' value' longer digit = rw longer (
    rw append_assoc (
      byte_lt-append (decimal low) (c ∷ (rest ++ b':' ∷ (stamp ++ b':' ∷ value)))
        (b':' ∷ (stamp' ++ b':' ∷ value'))
      ∙ ground arith))
