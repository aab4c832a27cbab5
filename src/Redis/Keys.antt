-- ===== src/Redis/Keys.antt =====
-- The redis server as the scripts of stolos/queue_backend/qbcli_redis.py use it: keys that hold
-- strings, with expiry. The server is not part of the repository, so it is a parameter: its
-- commands, and their documented effect on every key. `elapse` is the passing of time.
-- Times are whole seconds since the epoch, as `EXPIREAT` takes them.
pub mod Memory
use stolos.Prelude.{
  ℕ, ◌+◌, ◌≡◌, Bool, true, false, Option, none, some, ◌&&◌, Text, text_eq, leb, ltb, is_some,
  if◌then◌else◌,
}

-- Whether a deadline has passed.
abbrev pub expired : Option ℕ → ℕ → Bool
expired none t = false
expired (some e) t = leb e t

pub record Keys : Type 1 where
  pub Store : Type 0
  pub now : Store → ℕ
  -- GET, and EXPIRETIME
  pub get : Store → Text → Option Text
  pub deadline : Store → Text → Option ℕ
  pub elapse : ℕ → Store → Store
  -- SET, SET … NX (SETNX), SET … XX: the Boolean says whether the value was set
  pub set : Text → Text → Store → Store
  pub set_nx : Text → Text → Store → Bool × Store
  pub set_xx : Text → Text → Store → Bool × Store
  -- EXPIREAT, PERSIST and DEL; a number is the reply
  pub expireat : Text → ℕ → Store → ℕ × Store
  pub persist : Text → Store → Store
  pub del : Text → Store → ℕ × Store
  pub now-elapse : (d : ℕ) (s : Store) → now (elapse d s) ≡ now s + d
  pub get-elapse :
      (d : ℕ) (s : Store) (j : Text)
      → get (elapse d s) j ≡ (if expired (deadline s j) (now s + d) then none else get s j)
  pub deadline-elapse :
      (d : ℕ) (s : Store) (j : Text)
      → deadline (elapse d s) j
        ≡ (if expired (deadline s j) (now s + d) then none else deadline s j)
  pub now-set : (k v : Text) (s : Store) → now (set k v s) ≡ now s
  pub get-set :
      (k v : Text) (s : Store) (j : Text)
      → get (set k v s) j ≡ (if text_eq k j then some v else get s j)
  pub deadline-set :
      (k v : Text) (s : Store) (j : Text)
      → deadline (set k v s) j ≡ (if text_eq k j then none else deadline s j)
  pub set_nx_lem :
      (k v : Text) (s : Store)
      → set_nx k v s ≡ (if is_some (get s k) then (false, s) else (true, set k v s))
  pub set_xx_lem :
      (k v : Text) (s : Store)
      → set_xx k v s ≡ (if is_some (get s k) then (true, set k v s) else (false, s))
  pub now-expireat : (k : Text) (t : ℕ) (s : Store) → now (expireat k t s).1 ≡ now s
  pub expireat-reply :
      (k : Text) (t : ℕ) (s : Store) → (expireat k t s).0 ≡ (if is_some (get s k) then 1 else 0)
  -- A time that is not in the future deletes the key.
  pub get-expireat :
      (k : Text) (t : ℕ) (s : Store) (j : Text)
      → get (expireat k t s).1 j ≡ (if text_eq k j && leb t (now s) then none else get s j)
  pub deadline-expireat :
      (k : Text) (t : ℕ) (s : Store) (j : Text)
      → deadline (expireat k t s).1 j ≡ (
          if text_eq k j
          then (if is_some (get s k) && ltb (now s) t then some t else none)
          else deadline s j)
  pub now-persist : (k : Text) (s : Store) → now (persist k s) ≡ now s
  pub get-persist : (k : Text) (s : Store) (j : Text) → get (persist k s) j ≡ get s j
  pub deadline-persist :
      (k : Text) (s : Store) (j : Text)
      → deadline (persist k s) j ≡ (if text_eq k j then none else deadline s j)
  pub now-del : (k : Text) (s : Store) → now (del k s).1 ≡ now s
  pub del-reply : (k : Text) (s : Store) → (del k s).0 ≡ (if is_some (get s k) then 1 else 0)
  pub get-del :
      (k : Text) (s : Store) (j : Text)
      → get (del k s).1 j ≡ (if text_eq k j then none else get s j)
  pub deadline-del :
      (k : Text) (s : Store) (j : Text)
      → deadline (del k s).1 j ≡ (if text_eq k j then none else deadline s j)
