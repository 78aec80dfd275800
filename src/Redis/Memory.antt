-- ===== src/Redis/Memory.antt =====
-- A server in memory that meets the laws: a key maps to its value and its time to live.
use text.Mathlib.Text.{◌==◌}
use lumina_ai.Prelude.{ℕ, ◌<◌, String, ◌≡◌, Option, none, some, arith, eq_iff, if◌then◌else◌, ◌&&◌}
use lumina_ai.Prelude.Int.{ℤ, ◌+ℤ◌}
use lumina_ai.Redis.{Cache, Counters, is_some, is_none, expires_within, shorten, or_zero}

module _ (V : Type 0) where
  abbrev pub Memory : Type 0
  Memory = String → Option (V × Option ℕ)

  abbrev pub value : Option (V × Option ℕ) → Option V
  value none = none
  value (some (v, t)) = some v

  abbrev pub life : Option (V × Option ℕ) → Option ℕ
  life none = none
  life (some (v, t)) = t

  abbrev pub set : Memory → String → V → ℕ → Memory
  set s k v t j = if k == j then some (v, some t) else s j

  abbrev pub set_nx : Memory → String → V → ℕ → Memory
  set_nx s k v t j = if k == j && is_none (value (s k)) then some (v, some t) else s j

  abbrev pub delete : Memory → String → Memory
  delete s k j = if k == j then none else s j

  abbrev pub with_life : Option (V × Option ℕ) → ℕ → Option (V × Option ℕ)
  with_life none t = none
  with_life (some (v, l)) t = some (v, some t)

  abbrev pub with_life_nx : Option (V × Option ℕ) → ℕ → Option (V × Option ℕ)
  with_life_nx (some (v, none)) t = some (v, some t)
  with_life_nx e t = e

  abbrev pub expire : Memory → String → ℕ → Memory
  expire s k t j = if k == j then with_life (s j) t else s j

  abbrev pub expire_nx : Memory → String → ℕ → Memory
  expire_nx s k t j = if k == j then with_life_nx (s j) t else s j

  abbrev pub age : Option (V × Option ℕ) → ℕ → Option (V × Option ℕ)
  age none d = none
  age (some (v, l)) d = if expires_within l d then none else some (v, shorten l d)

  pub get_set_lem :
      (s : Memory) (k : String) (v : V) (t : ℕ) (j : String)
      → 0 < t
      → value (set s k v t j) ≡ (if k == j then some v else value (s j))
  get_set_lem s k v t j h = ground arith

  pub ttl_set_lem :
      (s : Memory) (k : String) (v : V) (t : ℕ) (j : String)
      → 0 < t
      → life (set s k v t j) ≡ (if k == j then some t else life (s j))
  ttl_set_lem s k v t j h = ground arith

  pub get_set_nx_lem :
      (s : Memory) (k : String) (v : V) (t : ℕ) (j : String)
      → 0 < t
      → value (set_nx s k v t j) ≡ (if k == j && is_none (value (s k)) then some v else value (s j))
  get_set_nx_lem s k v t j h = ground arith

  pub get_expire_lem :
      (s : Memory) (k : String) (t : ℕ) (j : String) → 0 < t → value (expire s k t j) ≡ value (s j)
  get_expire_lem s k t j h = ground arith

  pub get_delete_lem :
      (s : Memory) (k j : String) → value (delete s k j) ≡ (if k == j then none else value (s j))
  get_delete_lem s k j = ground arith

  pub ttl_delete_lem :
      (s : Memory) (k j : String) → life (delete s k j) ≡ (if k == j then none else life (s j))
  ttl_delete_lem s k j = ground arith

  pub ttl_expire_lem :
      (s : Memory) (k : String) (t : ℕ) (j : String)
      → 0 < t
      → life (expire s k t j) ≡ (if k == j && is_some (value (s k)) then some t else life (s j))
  ttl_expire_lem s k t j h = ground (arith, eq_iff k j)

  pub get_expire_nx_lem :
      (s : Memory) (k : String) (t : ℕ) (j : String)
      → 0 < t
      → value (expire_nx s k t j) ≡ value (s j)
  get_expire_nx_lem s k t j h = ground arith

  pub ttl_expire_nx_lem :
      (s : Memory) (k : String) (t : ℕ) (j : String)
      → 0 < t
      → life (expire_nx s k t j)
        ≡ (if k == j && is_some (value (s k)) && is_none (life (s k)) then some t else life (s j))
  ttl_expire_nx_lem s k t j h = ground (arith, eq_iff k j)

  pub get_elapse_lem :
      (s : Memory) (d : ℕ) (j : String)
      → value (age (s j) d) ≡ (if expires_within (life (s j)) d then none else value (s j))
  get_elapse_lem s d j = ground arith

  pub ttl_elapse_lem :
      (s : Memory) (d : ℕ) (j : String) → life (age (s j) d) ≡ shorten (life (s j)) d
  ttl_elapse_lem s d j = ground arith

  abbrev pub memory : Cache V
  memory = record {
    Store = Memory;
    get = λ s k. value (s k);
    ttl = λ s k. life (s k);
    set = set;
    set_nx = set_nx;
    delete = delete;
    expire = expire;
    expire_nx = expire_nx;
    elapse = λ s d j. age (s j) d;
    get_set = get_set_lem;
    ttl_set = ttl_set_lem;
    get_set_nx = get_set_nx_lem;
    get_delete = get_delete_lem;
    ttl_delete = ttl_delete_lem;
    get_expire = get_expire_lem;
    ttl_expire = ttl_expire_lem;
    get_expire_nx = get_expire_nx_lem;
    ttl_expire_nx = ttl_expire_nx_lem;
    get_elapse = get_elapse_lem;
    ttl_elapse = ttl_elapse_lem;
  }

abbrev pub incrby : Memory ℤ → String → ℤ → Memory ℤ
incrby s k n j = if k == j then some (or_zero (value ℤ (s k)) +ℤ n, life ℤ (s k)) else s j

pub get_incrby_lem :
    (s : Memory ℤ) (k : String) (n : ℤ) (j : String)
    → value ℤ (incrby s k n j)
      ≡ (if k == j then some (or_zero (value ℤ (s k)) +ℤ n) else value ℤ (s j))
get_incrby_lem s k n j = ground arith

pub ttl_incrby_lem :
    (s : Memory ℤ) (k : String) (n : ℤ) (j : String) → life ℤ (incrby s k n j) ≡ life ℤ (s j)
ttl_incrby_lem s k n j = ground (arith, eq_iff k j)

abbrev pub counters : Counters
counters = record {
  cache = memory ℤ;
  incrby = incrby;
  get_incrby = get_incrby_lem;
  ttl_incrby = ttl_incrby_lem;
}
