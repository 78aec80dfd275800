-- ===== src/Quota/Service/Settle.antt =====
-- `release`, `commit` and `_keep_expiry`: what settling a reservation leaves of its counter.
use mathlib.Core.Bool.{false≢true}
use text.Mathlib.Text.{◌==◌}
use text.Mathlib.TextPositions.{eq_refl}
use lumina_ai.Prelude.{
  ℕ, ◌<◌, String, ◌≡◌, ◌≢◌, Option, none, some, arith, eq_iff, ap, ==_ne, Bool-cases, inl, inr, ◌∙◌,
  sym, if◌then◌else◌,
}
use lumina_ai.Prelude.Int.{ℤ, pos, ◌+ℤ◌, ◌-ℤ◌, clamp, +ℤ_parts, -ℤ_parts, +ℤ_neg}
use lumina_ai.Redis.{Counters, or_zero}
use lumina_ai.Quota.Service.{World, Reservation, count, keep_expiry, lift, commit, release}

-- The life that a key has after it has been given one only if it had none.
abbrev pub kept : Option ℕ → ℕ → ℕ
kept none t = t
kept (some l) t = l

module _ (r : Counters) (v : Reservation) (w : World r) (lives : 0 < v.ttl_seconds) where
  open r use {incrby, cache.{Store, get, ttl}}

  abbrev changed : ℤ → Store
  changed n = incrby w.store v.key n

  abbrev lifted : ℤ → Store
  lifted n = incrby (changed n) v.key (pos 0 -ℤ count r (changed n) v.key)

  -- INCRBY, the lift to 0 and EXPIRE NX, which `release` and `commit` share.
  abbrev settled : ℤ → World r
  settled n = keep_expiry r v (lift r (record w { store = changed n }) v.key)

  count-settled :
      (n : ℤ) → count r (settled n).store v.key ≡ pos (clamp (count r w.store v.key +ℤ n))
  unfolding keep_expiry lift
  count-settled n = ground (
    arith,
    eq_refl v.key,
    r.get_incrby w.store v.key n v.key,
    r.get_incrby (changed n) v.key (pos 0 -ℤ count r (changed n) v.key) v.key,
    r.cache.get_expire_nx (changed n) v.key v.ttl_seconds v.key,
    r.cache.get_expire_nx (lifted n) v.key v.ttl_seconds v.key,
    +ℤ_parts (count r w.store v.key) n,
    -ℤ_parts (pos 0) (count r (changed n) v.key),
    +ℤ_parts (count r (changed n) v.key) (pos 0 -ℤ count r (changed n) v.key),
  )

  ttl-settled :
      (n : ℤ) → ttl (settled n).store v.key ≡ some (kept (ttl w.store v.key) v.ttl_seconds)
  unfolding keep_expiry lift
  ttl-settled n = ground (
    arith,
    eq_refl v.key,
    r.get_incrby w.store v.key n v.key,
    r.get_incrby (changed n) v.key (pos 0 -ℤ count r (changed n) v.key) v.key,
    r.ttl_incrby w.store v.key n v.key,
    r.ttl_incrby (changed n) v.key (pos 0 -ℤ count r (changed n) v.key) v.key,
    r.cache.ttl_expire_nx (changed n) v.key v.ttl_seconds v.key,
    r.cache.ttl_expire_nx (lifted n) v.key v.ttl_seconds v.key,
  )

  get-settled_ne : (n : ℤ) (j : String) → v.key ≢ j → get (settled n).store j ≡ get w.store j
  unfolding keep_expiry lift
  get-settled_ne n j h = ground (
    arith,
    eq_iff v.key j,
    r.get_incrby w.store v.key n j,
    r.get_incrby (changed n) v.key (pos 0 -ℤ count r (changed n) v.key) j,
    r.cache.get_expire_nx (changed n) v.key v.ttl_seconds j,
    r.cache.get_expire_nx (lifted n) v.key v.ttl_seconds j,
  )

  get-settled :
      (n : ℤ) (j : String)
      → count r (settled n).store j
        ≡ (if v.key == j then pos (clamp (count r w.store v.key +ℤ n)) else count r w.store j)
  get-settled n j = elim (Bool-cases (v.key == j)) [
    | inl same ↦ let e : v.key ≡ j = (eq_iff v.key j).0 same in rw (same, ← e) (count-settled n)
    | inr other ↦
        rw other
          (ap or_zero (get-settled_ne n j (λ e. false≢true (sym other ∙ (eq_iff v.key j).1 e))))
  ]

  -- A release of a reservation that has a time to live lowers its counter by the amount, but not
  -- below 0, and leaves the value of every other key; the counter has an expiry afterwards, the one
  -- it had or, if it had none, that of the reservation.
  pub release_settles :
      (j : String)
      → (count r (release r v w).store j ≡ (
          if v.key == j
          then pos (clamp (count r w.store v.key -ℤ pos v.amount))
          else count r w.store j))
        × (ttl (release r v w).store v.key ≡ some (kept (ttl w.store v.key) v.ttl_seconds))
  unfolding release
  release_settles j =
      let n = pos 0 -ℤ pos v.amount in
      (
        get-settled n j
            ∙ ap (λ z. if v.key == j then pos (clamp z) else count r w.store j) (+ℤ_neg _ _),
        ttl-settled n,
      )

  -- A commit of another amount than the reserved one, of a reservation that has a time to live,
  -- moves its counter by the difference, but not below 0, and leaves the value of every other key;
  -- the counter has an expiry afterwards, as for a release.
  commit_settles :
      (actual : ℕ) (j : String)
      → actual ≢ v.amount
      → (count r (commit r v (some actual) w).store j ≡ (
          if v.key == j
          then pos (clamp (count r w.store v.key +ℤ (pos actual -ℤ pos v.amount)))
          else count r w.store j))
        × (ttl (commit r v (some actual) w).store v.key
            ≡ some (kept (ttl w.store v.key) v.ttl_seconds))
  unfolding commit
  commit_settles actual j h =
      let n = pos actual -ℤ pos v.amount in
      rw (==_ne actual v.amount h) (get-settled n j, ttl-settled n)
