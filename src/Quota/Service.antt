-- ===== src/Quota/Service.antt =====
-- `QuotaService` of backend/services/platform/quota.py: reserve, commit, release, correct, status.
-- A call reads the limits, the aggregates of the database and the thresholds from a `Site`, takes
-- the server and the notices sent so far as state, and returns them also when it raises.
pub mod Notify
pub mod Settle
pub mod Reserve
pub mod Reconcile
use lumina_ai.Prelude.{
  ℕ, ◌+◌, ◌*◌, String, Bool, ◌||◌, Option, none, some, List, [], ◌∷◌, ◌++◌, map, ltb, ◌==◌, max,
  if◌then◌else◌,
}
use lumina_ai.Prelude.Int.{ℤ, pos, ◌+ℤ◌, ◌-ℤ◌, ltb_ℤ, clamp, pos_part, neg_part}
use lumina_ai.Prelude.Texts.{is_empty, decimal}
use lumina_ai.Redis.{Counters, or_zero, is_some, tenant_key}
use lumina_ai.Quota.Resource.{
  Resource, documents, is_db_backed, is_gauge, is_monthly, is_daily, name, resources,
}
use lumina_ai.Quota.Period.{Moment, period_label, period_end, key_of, ttl_of}
use lumina_ai.Quota.Plan.{Table, Json, Limits, resolve_limits}

-- What one call reads of a tenant: its id, the parsed plan, the quota section of its settings (none
-- where the tenant or the section is missing), the aggregates of its documents and the thresholds.
pub record Site : Type 0 where
  pub tenant_id : String
  pub plan : Table
  pub overrides : Option (List (String × Json))
  pub active_count : ℕ
  pub active_size_bytes : ℕ
  pub thresholds : List ℕ

abbrev pub overrides_of : Option (List (String × Json)) → List (String × Json)
overrides_of none = []
overrides_of (some os) = os

unfoldable pub limits : Site → Limits
limits c = resolve_limits c.plan (overrides_of c.overrides)

abbrev pub db_used : Site → Resource → ℕ
db_used c documents = c.active_count
db_used c _ = c.active_size_bytes

-- The `details` of a `QuotaExceededError`.
pub record Details : Type 0 where
  pub resource : Resource
  pub limit : ℕ
  pub used : ℤ
  pub resets_at : Option ℕ
  pub needed : Option ℕ
  pub remaining : Option ℕ

pub data Result (A : Type 0) : Type 0 where
  ok : A → Result A
  quota_exceeded : Details → Result A

pub record Reservation : Type 0 where
  pub resource : Resource
  pub amount : ℕ
  pub key : String
  pub ttl_seconds : ℕ

pub record Notice : Type 0 where
  pub resource : Resource
  pub used : ℤ
  pub limit : ℕ
  pub period_start : String

pub record Status : Type 0 where
  pub resource : Resource
  pub limit : Option ℕ
  pub used : ℤ
  pub remaining : Option ℕ
  pub resets_at : Option ℕ

-- `thresholds[0]`, where there is one.
abbrev pub first : List ℕ → ℕ
first [] = 0
first (t ∷ ts) = t

abbrev pub notify_guard_ttl_seconds : ℕ
notify_guard_ttl_seconds = 3456000

-- `used * 100 < t * limit`.
abbrev pub below_threshold : ℤ → ℕ → ℕ → Bool
below_threshold used t limit = ltb (pos_part used * 100) (t * limit + neg_part used * 100)

-- The highest threshold that is crossed.
abbrev pub crossed : List ℕ → ℤ → ℕ → ℕ
crossed [] used limit = 0
crossed (t ∷ ts) used limit =
    let rest = crossed ts used limit in if below_threshold used t limit then rest else max t rest

abbrev pub remaining_of : ℕ → ℤ → ℕ
remaining_of limit used = clamp (pos limit -ℤ used)

abbrev pub resets : Resource → Moment → Option ℕ
resets resource now =
    if is_monthly resource || is_daily resource then some (period_end resource now.date) else none

module _ (r : Counters) where
  open r use {incrby, cache.{Store, get, ttl, set, set_nx, expire, expire_nx}}

  pub record World : Type 0 where
    pub store : Store
    pub notices : List Notice

  -- The value of a counter: a missing key counts as 0.
  abbrev pub count : Store → String → ℤ
  count s k = or_zero (get s k)

  abbrev pub guard_key : Site → Resource → Moment → ℤ → ℕ → String
  guard_key c resource now used limit = tenant_key c.tenant_id (
      "quota"
      ∷ "notified"
      ∷ name resource
      ∷ period_label resource now.date
      ∷ decimal (crossed c.thresholds used limit)
      ∷ [])

  pub notify : Site → Resource → ℤ → ℕ → Moment → World → World
  notify c resource used limit now w =
      let guard = guard_key c resource now used limit in
      if is_some (get w.store guard) then w else record {
        store = set_nx w.store guard (pos 1) notify_guard_ttl_seconds;
        notices =
            w.notices
            ++ (record {
              resource = resource;
              used = if ltb_ℤ (pos limit) used then pos limit else used;
              limit = limit;
              period_start = period_label resource now.date;
            }
                ∷ []);
      }

  -- `_maybe_notify`.
  unfoldable pub maybe_notify : Site → Resource → ℤ → ℕ → Moment → World → World
  unfolding notify
  maybe_notify c resource used limit now w =
      if is_gauge resource
        || limit == 0
        || is_empty c.thresholds
        || below_threshold used (first c.thresholds) limit
      then w
      else notify c resource used limit now w

  db_reserve : Site → Resource → ℕ → ℕ → Moment → World → Result (Option Reservation) × World
  db_reserve c resource limit amount now w =
      let used = db_used c resource in
      let w' = maybe_notify c resource (pos (used + amount)) limit now w in
      if ltb limit (used + amount)
      then (
        quota_exceeded (record {
          resource = resource;
          limit = limit;
          used = pos used;
          resets_at = none;
          needed = none;
          remaining = none;
        }),
        w',
      )
      else (ok none, w')

  -- INCRBY first, then look: what is refused is taken back at once.
  counter_reserve : Site → Resource → ℕ → ℕ → Moment → World → Result (Option Reservation) × World
  counter_reserve c resource limit amount now w =
      let key = key_of c.tenant_id resource now in
      let life = ttl_of resource now in
      let added = incrby w.store key (pos amount) in
      let used_after = count added key in
      let w' =
        maybe_notify c resource used_after limit now (record w { store = expire added key life }) in
      if ltb_ℤ (pos limit) used_after
      then (
        quota_exceeded (record {
          resource = resource;
          limit = limit;
          used = used_after -ℤ pos amount;
          resets_at = if is_gauge resource then none else some (period_end resource now.date);
          needed = none;
          remaining = none;
        }),
        record w' { store = incrby w'.store key (pos 0 -ℤ pos amount) },
      )
      else (
        ok (some (record { resource = resource; amount = amount; key = key; ttl_seconds = life })),
        w',
      )

  -- With the limit of the resource at hand: no limit, a resource of the database, or a counter.
  reserve_within :
      Site → Resource → Option ℕ → ℕ → Moment → World → Result (Option Reservation) × World
  reserve_within c resource none amount now w = (ok none, w)
  reserve_within c resource (some limit) amount now w =
      if is_db_backed resource
      then db_reserve c resource limit amount now w
      else counter_reserve c resource limit amount now w

  unfoldable pub check_and_reserve :
      Site → Resource → ℕ → Moment → World → Result (Option Reservation) × World
  unfolding reserve_within db_reserve counter_reserve
  check_and_reserve c resource amount now w =
      reserve_within c resource (limits c resource) amount now w

  -- What is used of a resource now.
  pub used_now : Site → Resource → Moment → World → ℤ
  used_now c resource now w =
      if is_db_backed resource
      then pos (db_used c resource)
      else count w.store (key_of c.tenant_id resource now)

  -- `check_headroom` changes nothing, so it returns no state.
  pub check_headroom : Site → Resource → ℕ → Moment → World → Result (Unit {0})
  unfolding used_now
  check_headroom c resource amount now w = if amount == 0 then ok tt else elim (limits c resource) [
    | none ↦ ok tt
    | some limit ↦
        let used = used_now c resource now w in
        if ltb_ℤ (pos limit) (used +ℤ pos amount)
        then quota_exceeded (record {
          resource = resource;
          limit = limit;
          used = used;
          resets_at = resets resource now;
          needed = some amount;
          remaining = some (remaining_of limit used);
        })
        else ok tt
  ]

  -- `_keep_expiry`: only a key with no expiry is given one.
  keep_expiry : Reservation → World → World
  keep_expiry v w = record w { store = expire_nx w.store v.key v.ttl_seconds }

  -- A counter that has fallen below 0 is lifted back to 0.
  lift : World → String → World
  lift w k =
      if ltb_ℤ (count w.store k) (pos 0)
      then record w { store = incrby w.store k (pos 0 -ℤ count w.store k) }
      else w

  pub commit : Reservation → Option ℕ → World → World
  unfolding keep_expiry lift
  commit v none w = w
  commit v (some actual) w =
      if actual == v.amount
      then w
      else keep_expiry v
          (lift (record w { store = incrby w.store v.key (pos actual -ℤ pos v.amount) }) v.key)

  pub release : Reservation → World → World
  unfolding keep_expiry lift
  release v w =
      keep_expiry v (lift (record w { store = incrby w.store v.key (pos 0 -ℤ pos v.amount) }) v.key)

  -- `correct`: the counter becomes the value, at least 0.
  pub correct : Site → Resource → ℤ → Moment → World → World
  correct c resource value now w = record w {
    store = set w.store (key_of c.tenant_id resource now) (pos (clamp value)) (ttl_of resource now);
  }

  status_of : Site → Moment → World → Resource → Status
  unfolding used_now
  status_of c now w resource =
      let used = used_now c resource now w in
      record {
        resource = resource;
        limit = limits c resource;
        used = used;
        remaining = elim (limits c resource) [
          | none ↦ none
          | some limit ↦ some (remaining_of limit used)
        ];
        resets_at = resets resource now;
      }

  pub status : Site → Moment → World → List Status
  unfolding status_of
  status c now w = map (status_of c now w) resources
