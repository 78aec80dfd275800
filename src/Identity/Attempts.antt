-- ===== src/Identity/Attempts.antt =====
-- `ensure_not_locked`, `record_password_failure` and `clear_password_failures` of
-- backend/services/identity/auth.py: the lock on an account whose password is guessed.
use text.Mathlib.TextPositions.{eq_refl}
use lumina_ai.Prelude.{
  ℕ, suc, ◌+◌, ◌<◌, String, ◌≡◌, Bool, true, false, Option, none, some, List, [], ◌∷◌, arith, ltb,
  leb, length, ◌-◌, ◌⊎◌, inl, inr, if◌then◌else◌,
}
use lumina_ai.Prelude.Int.{pos, ◌+ℤ◌, leb_ℤ}
use lumina_ai.Redis.{Counters, tenant_key, or_zero, expires_within}

-- The settings `login_max_attempts` and `login_lockout_seconds`.
pub record LoginLimits : Type 0 where
  pub max_attempts : ℕ
  pub lockout_seconds : ℕ

-- `_attempts_key`.
abbrev pub attempts_key : String → String → String
attempts_key tenant_id email = tenant_key tenant_id ("login-fail" ∷ email ∷ [])

abbrev pub seconds_left : Option ℕ → ℕ
seconds_left none = 0
seconds_left (some t) = t

+ℤ_one : (n : ℕ) → pos n +ℤ pos 1 ≡ pos (suc n)
unfolding ◌+ℤ◌
+ℤ_one n = ground arith

module _ (r : Counters) where
  open r use {incrby, cache.{Store, get, ttl, delete, expire, elapse}}

  -- The seconds to wait, where the account is locked.
  unfoldable pub ensure_not_locked : LoginLimits → String → String → Store → Option ℕ
  ensure_not_locked l tenant_id email s =
      let key = attempts_key tenant_id email in
      elim (get s key) [
        | none ↦ none
        | some raw ↦
            if leb_ℤ (pos l.max_attempts) raw then some (seconds_left (ttl s key)) else none
      ]

  unfoldable pub record_password_failure : LoginLimits → String → String → Store → Store
  record_password_failure l tenant_id email s =
      let key = attempts_key tenant_id email in expire (incrby s key (pos 1)) key l.lockout_seconds

  unfoldable pub clear_password_failures : String → String → Store → Store
  clear_password_failures tenant_id email s = delete s (attempts_key tenant_id email)

  -- Failures, each after a number of seconds.
  abbrev pub failures : LoginLimits → String → String → List ℕ → Store → Store
  failures l tenant email [] s = s
  failures l tenant email (d ∷ ds) s =
      failures l tenant email ds (record_password_failure l tenant email (elapse s d))

  -- Every pause is shorter than the lock.
  abbrev pub within : LoginLimits → List ℕ → Bool
  within l [] = true
  within l (d ∷ ds) = let rest = within l ds in if ltb d l.lockout_seconds then rest else false

  within-first :
      (l : LoginLimits) (d : ℕ) (ds : List ℕ) → within l (d ∷ ds) ≡ true → d < l.lockout_seconds
  within-first l d ds w = ground arith

  within-rest :
      (l : LoginLimits) (d : ℕ) (ds : List ℕ) → within l (d ∷ ds) ≡ true → within l ds ≡ true
  within-rest l d ds w = ground arith

  module _ (l : LoginLimits) (tenant email : String) (d : ℕ) (s : Store) where
    abbrev key : String
    key = attempts_key tenant email

    -- One more failure, `d` seconds later.
    failure-count :
        0 < l.lockout_seconds
        → (get (elapse s d) key ≡ none) ⊎ (expires_within (ttl s key) d ≡ false)
        → (get (record_password_failure l tenant email (elapse s d)) key
            ≡ some (or_zero (get (elapse s d) key) +ℤ pos 1))
          × (ttl (record_password_failure l tenant email (elapse s d)) key ≡ some l.lockout_seconds)
    unfolding record_password_failure
    failure-count lasts h = ground (
      arith,
      eq_refl key,
      r.get_incrby (elapse s d) key (pos 1) key,
      r.cache.get_expire (incrby (elapse s d) key (pos 1)) key l.lockout_seconds key lasts,
      r.cache.ttl_expire (incrby (elapse s d) key (pos 1)) key l.lockout_seconds key lasts,
    )

  failures-count :
      (l : LoginLimits) (tenant email : String) (ds : List ℕ) (s : Store) (n : ℕ)
      → get s (attempts_key tenant email) ≡ some (pos n)
      → ttl s (attempts_key tenant email) ≡ some l.lockout_seconds
      → within l ds ≡ true
      → (get (failures l tenant email ds s) (attempts_key tenant email)
          ≡ some (pos (length ds + n)))
        × (ttl (failures l tenant email ds s) (attempts_key tenant email) ≡ some l.lockout_seconds)
  unfolding record_password_failure
  failures-count l tenant email [] s n e t w = ground (arith, e, t)
  failures-count l tenant email (d ∷ ds) s n e t w =
      let key = attempts_key tenant email in
      let one = record_password_failure l tenant email (elapse s d) in
      let w0 = within-first l d ds w in
      let f = failure-count l tenant email d s (omega (arith, w0)) (inr (ground (arith, t, w0))) in
      let ih =
        failures-count l tenant email ds one (suc n)
          (ground (arith, f.0, e, t, w0, r.cache.get_elapse s d key, +ℤ_one n)) f.1
          (within-rest l d ds w) in
      ground (arith, ih.0, ih.1)

  -- Failures from a cleared count, each less than the lock after the one before, and then `d` more
  -- seconds, less than the lock: the account is locked exactly when there were `max_attempts`
  -- failures or more, for another `lockout_seconds - d`; clearing the count unlocks it.
  pub ensure_not_locked_lem :
      (l : LoginLimits) (tenant email : String) (first d : ℕ) (ds : List ℕ) (s : Store)
      → within l (d ∷ ds) ≡ true
      → let s1 =
          elapse
            (failures l tenant email (first ∷ ds) (clear_password_failures tenant email s))
            d in
        (ensure_not_locked l tenant email s1
          ≡ (if leb l.max_attempts (suc (length ds)) then some (l.lockout_seconds - d) else none))
        × (ensure_not_locked l tenant email (clear_password_failures tenant email s1) ≡ none)
  unfolding ensure_not_locked clear_password_failures record_password_failure
  ensure_not_locked_lem l tenant email first d ds s w =
      let key = attempts_key tenant email in
      let s0 = clear_password_failures tenant email s in
      let one = record_password_failure l tenant email (elapse s0 first) in
      let last = failures l tenant email ds one in
      let w0 = within-first l d ds w in
      let cleared : get (elapse s0 first) key ≡ none =
        ground
          (arith, eq_refl key, r.cache.get_delete s key key, r.cache.get_elapse s0 first key) in
      let f = failure-count l tenant email first s0 (omega (arith, w0)) (inl cleared) in
      let counted =
        failures-count l tenant email ds one 1 (ground (arith, f.0, cleared, +ℤ_one 0)) f.1
          (within-rest l d ds w) in
      (
        ground (
          arith,
          counted.0,
          counted.1,
          w0,
          r.cache.get_elapse last d key,
          r.cache.ttl_elapse last d key,
        ),
        ground (arith, eq_refl key, r.cache.get_delete (elapse last d) key key),
      )
