-- ===== src/Quota/Service/Reserve.antt =====
-- `check_and_reserve` on a counter, and what a later `release` or `commit` does to it.
use text.Mathlib.TextPositions.{eq_refl}
use text.Mathlib.Text.{◌==◌}
use lumina_ai.Prelude.{
  ℕ, ◌<◌, ◌+◌, ltb, String, ◌≡◌, refl, true, false, Option, none, some, arith, ap, ◌∙◌,
  if◌then◌else◌, eq_iff, Bool-cases, inl, inr,
}
use lumina_ai.Prelude.Int.{ℤ, pos, ltb_ℤ, ◌+ℤ◌, ◌-ℤ◌, ◌≤ℤ◌, +ℤ_parts, +ℤ_cancel, +ℤ_undo}
use lumina_ai.Redis.{Counters, or_zero}
use lumina_ai.Quota.Resource.{Resource, is_db_backed, is_gauge}
use lumina_ai.Quota.Period.{Moment, IsMoment, key_of, ttl_of, ttl_of_pos, period_end}
use lumina_ai.Quota.Service.{
  Site, counter_reserve, db_reserve, reserve_within, db_used, World, Reservation, Details, Result,
  ok, quota_exceeded, limits, count, check_and_reserve, maybe_notify,
}
use lumina_ai.Quota.Service.Notify.{get-maybe_notify}

module _ (r : Counters) where
  open r use {incrby, cache.{Store, get, expire}}

  pub count-incrby : (s : Store) (k : String) (n : ℤ) → count r (incrby s k n) k ≡ count r s k +ℤ n
  count-incrby s k n = rw (r.get_incrby s k n k, eq_refl k)

  pub count-expire :
      (s : Store) (k : String) (t : ℕ) (j : String) → 0 < t → count r (expire s k t) j ≡ count r s j
  count-expire s k t j h = rw (r.cache.get_expire s k t j h)

  module _ (c : Site) (q : Resource) (limit amount : ℕ) (now : Moment) where
    abbrev key : String
    key = key_of c.tenant_id q now

    abbrev pub reservation : Reservation
    reservation = record { resource = q; amount = amount; key = key; ttl_seconds = ttl_of q now }

    -- The world after INCRBY, EXPIRE and the notice.
    abbrev counted : World r → World r
    counted w =
        maybe_notify r c q (count r (incrby w.store key (pos amount)) key) limit now
          (record w { store = expire (incrby w.store key (pos amount)) key (ttl_of q now) })

    count-counted :
        (w : World r)
        → IsMoment now
        → count r (counted w).store key ≡ count r w.store key +ℤ pos amount
    count-counted w valid =
        ap or_zero (get-maybe_notify r c q q now now _ limit _)
        ∙ count-expire (incrby w.store key (pos amount)) key (ttl_of q now) key
            (ttl_of_pos q now valid)
        ∙ count-incrby w.store key (pos amount)

    -- A resource that is metered by a counter and has a limit, at a valid moment: while the counter
    -- and the amount stay within the limit, the reservation is granted and the counter rises by it.
    reserve_granted :
        (w : World r)
        → IsMoment now
        → limits c q ≡ some limit
        → is_db_backed q ≡ false
        → count r w.store key +ℤ pos amount ≤ℤ pos limit
        → ((check_and_reserve r c q amount now w).0 ≡ ok (some reservation))
          × (count r (check_and_reserve r c q amount now w).1.store key
              ≡ count r w.store key +ℤ pos amount)
    unfolding check_and_reserve
    reserve_granted w valid limited metered fits = ground (
      arith,
      count-incrby w.store key (pos amount),
      count-counted w valid,
      +ℤ_parts (count r w.store key) (pos amount),
    )

    -- A resource that is metered by a counter and has a limit, at a valid moment: when the counter
    -- and the amount exceed the limit, the reservation is refused with what is used, and the counter
    -- is left as it was.
    reserve_refused :
        (w : World r)
        → IsMoment now
        → limits c q ≡ some limit
        → is_db_backed q ≡ false
        → ¬ (count r w.store key +ℤ pos amount ≤ℤ pos limit)
        → ((d : Details) × ((check_and_reserve r c q amount now w).0 ≡ quota_exceeded d)
            × (d.used ≡ count r w.store key))
          × (count r (check_and_reserve r c q amount now w).1.store key ≡ count r w.store key)
    unfolding check_and_reserve
    reserve_refused w valid limited metered short = (
      (
        record {
          resource = q;
          limit = limit;
          used = count r (incrby w.store key (pos amount)) key -ℤ pos amount;
          resets_at = if is_gauge q then none else some (period_end q now.date);
          needed = none;
          remaining = none;
        },
        ground (
          arith,
          count-incrby w.store key (pos amount),
          +ℤ_parts (count r w.store key) (pos amount),
        ),
        rw (count-incrby w.store key (pos amount)) (+ℤ_cancel _ _),
      ),
      ground (
        arith,
        count-incrby w.store key (pos amount),
        +ℤ_parts (count r w.store key) (pos amount),
        count-counted w valid,
        count-incrby (counted w).store key (pos 0 -ℤ pos amount),
        +ℤ_undo (count r w.store key) (pos amount),
      ),
    )

-- What `check_and_reserve` did to one key: a granted reservation is added to its own key, and
-- nothing else is changed.
abbrev pub Effect :
    (r : Counters) → World r → String → Result (Option Reservation) × World r → Type 0
Effect r w j (ok none, w') = count r w'.store j ≡ count r w.store j
Effect r w j (ok (some v), w') =
    (count r w'.store j
      ≡ (if v.key == j then count r w.store j +ℤ pos v.amount else count r w.store j))
    × (0 < v.ttl_seconds)
Effect r w j (quota_exceeded d, w') = count r w'.store j ≡ count r w.store j

module _ (r : Counters) (c : Site) (q p : Resource) (now later : Moment) where
  open r use {incrby, cache.{get, expire}}

  db_reserve-Effect :
      (limit amount : ℕ) (w : World r)
      → Effect r w (key_of c.tenant_id p later) (db_reserve r c q limit amount now w)
  unfolding db_reserve
  db_reserve-Effect limit amount w =
      let e = get-maybe_notify r c p q now later (pos (db_used c q + amount)) limit w in
      elim (Bool-cases (ltb limit (db_used c q + amount))) [
        | inl over ↦ rw (over, e)
        | inr within ↦ rw (within, e)
      ]

  counter_reserve-Effect :
      (limit amount : ℕ) (w : World r)
      → IsMoment now
      → Effect r w (key_of c.tenant_id p later) (counter_reserve r c q limit amount now w)
  unfolding counter_reserve
  counter_reserve-Effect limit amount w valid =
      let j = key_of c.tenant_id p later in
      let k = key_of c.tenant_id q now in
      let added = incrby w.store k (pos amount) in
      let after = record w { store = expire added k (ttl_of q now) } in
      let e = get-maybe_notify r c p q now later (count r added k) limit after in
      let own = get-maybe_notify r c q q now now (count r added k) limit after in
      let notified = maybe_notify r c q (count r added k) limit now after in
      ground (
        arith,
        eq_iff k j,
        eq_refl k,
        e,
        own,
        r.cache.get_expire added k (ttl_of q now) j (ttl_of_pos q now valid),
        r.cache.get_expire added k (ttl_of q now) k (ttl_of_pos q now valid),
        r.get_incrby w.store k (pos amount) j,
        r.get_incrby w.store k (pos amount) k,
        r.get_incrby notified.store k (pos 0 -ℤ pos amount) j,
        +ℤ_undo (count r w.store k) (pos amount),
        ttl_of_pos q now valid,
      )

  reserve_within-Effect :
      (limit : Option ℕ) (amount : ℕ) (w : World r)
      → IsMoment now
      → Effect r w (key_of c.tenant_id p later) (reserve_within r c q limit amount now w)
  unfolding reserve_within
  reserve_within-Effect none amount w valid = refl
  reserve_within-Effect (some limit) amount w valid =
      elim (is_db_backed q)
        as (λ stored. Effect r w (key_of c.tenant_id p later) (
          if stored
          then db_reserve r c q limit amount now w
          else counter_reserve r c q limit amount now w)) [
            | true ↦ db_reserve-Effect limit amount w
            | false ↦ counter_reserve-Effect limit amount w valid
          ]

  -- Whether it grants or refuses, and whatever the metering, `check_and_reserve` at a valid moment
  -- changes every counter of the tenant by what it grants there, and by nothing else; what it grants
  -- has a time to live.
  pub check_and_reserve-Effect :
      (amount : ℕ) (w : World r)
      → IsMoment now
      → Effect r w (key_of c.tenant_id p later) (check_and_reserve r c q amount now w)
  unfolding check_and_reserve
  check_and_reserve-Effect amount w valid = reserve_within-Effect (limits c q) amount w valid

module _ (r : Counters) where
  -- What a call has taken of a resource that is counted: the amount, at the key of the moment, or
  -- nothing if the plan has no limit.
  abbrev pub Granted : Site → Resource → ℕ → Moment → Option Reservation → Type 0
  Granted c p amount now none = limits c p ≡ none
  Granted c p amount now (some v) = v ≡ record {
    resource = p;
    amount = amount;
    key = key_of c.tenant_id p now;
    ttl_seconds = ttl_of p now;
  }

  abbrev pub GrantedIf :
      Site → Resource → ℕ → Moment → Result (Option Reservation) × World r → Type 0
  GrantedIf c p amount now (quota_exceeded d, w) = Unit {0}
  GrantedIf c p amount now (ok o, w) = Granted c p amount now o

  counter_reserve-Granted :
      (c : Site) (p : Resource) (limit amount : ℕ) (now : Moment) (w : World r)
      → GrantedIf c p amount now (counter_reserve r c p limit amount now w)
  unfolding counter_reserve
  counter_reserve-Granted c p limit amount now w =
      let key = key_of c.tenant_id p now in
      let used = count r (r.incrby w.store key (pos amount)) key in
      elim (Bool-cases (ltb_ℤ (pos limit) used)) [
        | inl over ↦ rw (over, counter_reserve) tt
        | inr within ↦ rw (within, counter_reserve) refl
      ]

  pub check_and_reserve-Granted :
      (c : Site) (p : Resource) (amount : ℕ) (now : Moment) (w : World r)
      → is_db_backed p ≡ false
      → GrantedIf c p amount now (check_and_reserve r c p amount now w)
  unfolding check_and_reserve reserve_within
  check_and_reserve-Granted c p amount now w counted = by_limit (limits c p) refl
    where
      by_limit :
          (o : Option ℕ)
          → limits c p ≡ o
          → GrantedIf c p amount now (reserve_within r c p o amount now w)
      by_limit none e = e
      by_limit (some limit) e =
          rw (counted, reserve_within) (counter_reserve-Granted c p limit amount now w)
