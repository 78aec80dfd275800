-- ===== src/Redis.antt =====
-- The Redis server as a client sees it (backend/core/redis.py builds the client and its keys).
-- The server is not part of the repository: it is a parameter, with what its documentation says of
-- each command as laws. `none` from `ttl` is a key with no expiry, or no key. A time to live of 0
-- is excluded (`EXPIRE key 0` deletes, `SET … EX 0` is a syntax error); the program never sends one.
pub mod Memory
pub mod Keys
use Prim.Native.String.{◌++◌}
use text.Mathlib.Text.{◌==◌}
use lumina_ai.Prelude.{
  ℕ, ◌<◌, String, ◌≡◌, Bool, true, false, ◌&&◌, Option, none, some, List, [], ◌∷◌, leb, ◌-◌,
  if◌then◌else◌,
}
use lumina_ai.Prelude.Int.{ℤ, pos, ◌+ℤ◌}

-- `":".join(parts)` after a first part.
join_parts : String → List String → String
join_parts first [] = first
join_parts first (part ∷ parts) = join_parts (first ++ ":" ++ part) parts

-- The key of a tenant: `t:{tenant_id}:part1:part2`.
unfoldable pub tenant_key : String → List String → String
unfolding join_parts
tenant_key tenant_id parts = join_parts ("t:" ++ tenant_id) parts

module _ {V : Type 0} where
  abbrev pub is_some : Option V → Bool
  is_some none = false
  is_some (some v) = true

  abbrev pub is_none : Option V → Bool
  is_none none = true
  is_none (some v) = false

-- A key with this time to live is gone after `d` more seconds.
abbrev pub expires_within : Option ℕ → ℕ → Bool
expires_within none d = false
expires_within (some t) d = leb t d

abbrev pub shorten : Option ℕ → ℕ → Option ℕ
shorten none d = none
shorten (some t) d = if leb t d then none else some (t - d)

-- GET, TTL, SET … EX, SET … NX EX, DEL, EXPIRE, EXPIRE … NX, and the passing of time.
pub record Cache (V : Type 0) : Type 1 where
  pub Store : Type 0
  pub get : Store → String → Option V
  pub ttl : Store → String → Option ℕ
  pub set : Store → String → V → ℕ → Store
  pub set_nx : Store → String → V → ℕ → Store
  pub delete : Store → String → Store
  pub expire : Store → String → ℕ → Store
  pub expire_nx : Store → String → ℕ → Store
  pub elapse : Store → ℕ → Store
  pub get_set :
      (s : Store) (k : String) (v : V) (t : ℕ) (j : String)
      → 0 < t
      → get (set s k v t) j ≡ (if k == j then some v else get s j)
  pub ttl_set :
      (s : Store) (k : String) (v : V) (t : ℕ) (j : String)
      → 0 < t
      → ttl (set s k v t) j ≡ (if k == j then some t else ttl s j)
  pub get_set_nx :
      (s : Store) (k : String) (v : V) (t : ℕ) (j : String)
      → 0 < t
      → get (set_nx s k v t) j ≡ (if k == j && is_none (get s k) then some v else get s j)
  pub get_delete :
      (s : Store) (k j : String) → get (delete s k) j ≡ (if k == j then none else get s j)
  pub ttl_delete :
      (s : Store) (k j : String) → ttl (delete s k) j ≡ (if k == j then none else ttl s j)
  pub get_expire :
      (s : Store) (k : String) (t : ℕ) (j : String) → 0 < t → get (expire s k t) j ≡ get s j
  pub ttl_expire :
      (s : Store) (k : String) (t : ℕ) (j : String)
      → 0 < t
      → ttl (expire s k t) j ≡ (if k == j && is_some (get s k) then some t else ttl s j)
  pub get_expire_nx :
      (s : Store) (k : String) (t : ℕ) (j : String) → 0 < t → get (expire_nx s k t) j ≡ get s j
  pub ttl_expire_nx :
      (s : Store) (k : String) (t : ℕ) (j : String)
      → 0 < t
      → ttl (expire_nx s k t) j
        ≡ (if k == j && is_some (get s k) && is_none (ttl s k) then some t else ttl s j)
  pub get_elapse :
      (s : Store) (d : ℕ) (j : String)
      → get (elapse s d) j ≡ (if expires_within (ttl s j) d then none else get s j)
  pub ttl_elapse : (s : Store) (d : ℕ) (j : String) → ttl (elapse s d) j ≡ shorten (ttl s j) d

-- `int(client.get(key) or 0)`.
abbrev pub or_zero : Option ℤ → ℤ
or_zero none = pos 0
or_zero (some n) = n

-- Keys that hold counters: INCRBY (INCR, DECR and DECRBY are calls of it) keeps the expiry of the
-- key, and makes a missing key that has none.
pub record Counters : Type 1 where
  pub cache : Cache ℤ
  pub open cache use *
  pub incrby : cache.Store → String → ℤ → cache.Store
  pub get_incrby :
      (s : cache.Store) (k : String) (n : ℤ) (j : String)
      → cache.get (incrby s k n) j
        ≡ (if k == j then some (or_zero (cache.get s k) +ℤ n) else cache.get s j)
  pub ttl_incrby :
      (s : cache.Store) (k : String) (n : ℤ) (j : String)
      → cache.ttl (incrby s k n) j ≡ cache.ttl s j
