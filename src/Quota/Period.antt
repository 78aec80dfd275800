-- ===== src/Quota/Period.antt =====
-- Periods, their labels and ends, and the key of a counter with its time to live:
-- `_period_label`, `_period_end` and `_key_and_ttl` of backend/services/platform/quota.py.
-- A moment is a UTC calendar day and the microseconds since its midnight.
use Prim.Native.String.{◌++◌}
use lumina_ai.Prelude.{
  ℕ, zero, suc, ◌+◌, ◌-◌, ◌*◌, ◌/◌, ◌%◌, ◌≤◌, ◌<◌, String, ◌≡◌, Bool, ◌&&◌, ◌||◌, not, [], ◌∷◌,
  arith, ltb, ◌==◌, if◌then◌else◌, Bool-cases, inl, inr,
}
use lumina_ai.Prelude.Texts.{digit}
use lumina_ai.Redis.{tenant_key}
use lumina_ai.Quota.Resource.{Resource, name, is_monthly, is_gauge}

pub record Date : Type 0 where
  pub year : ℕ
  pub month : ℕ
  pub day : ℕ

pub record Moment : Type 0 where
  pub date : Date
  pub micros : ℕ

abbrev pub day_seconds : ℕ
day_seconds = 86400

abbrev pub million : ℕ
million = 1000000

-- The calendar of `datetime`.
abbrev pub is_leap : ℕ → Bool
is_leap y = y % 4 == 0 && (not (y % 100 == 0) || y % 400 == 0)

abbrev pub days_in_month : ℕ → ℕ → ℕ
days_in_month y m =
    if m == 2
    then (if is_leap y then 29 else 28)
    else if m == 4 || m == 6 || m == 9 || m == 11
    then 30
    else 31

abbrev pub days_before_year : ℕ → ℕ
days_before_year y = (y - 1) * 365 + (y - 1) / 4 - (y - 1) / 100 + (y - 1) / 400

-- Days of the year before the first of a month.
abbrev days_before_month_count : ℕ → ℕ → ℕ
days_before_month_count y zero = 0
days_before_month_count y (suc m) = days_before_month_count y m + days_in_month y (suc m)

abbrev pub days_before_month : ℕ → ℕ → ℕ
days_before_month y m = days_before_month_count y (m - 1)

-- `date.toordinal()`.
unfoldable pub ordinal : Date → ℕ
ordinal d = days_before_year d.year + days_before_month d.year d.month + d.day

pub record IsDate (d : Date) : Type 0 where
  pub year_pos : 1 ≤ d.year
  pub month_pos : 1 ≤ d.month
  pub month_le : d.month ≤ 12
  pub day_pos : 1 ≤ d.day
  pub day_le : d.day ≤ days_in_month d.year d.month

pub record IsMoment (now : Moment) : Type 0 where
  pub is_date : IsDate now.date
  pub micros_lt : now.micros < day_seconds * million

-- `:02d` below 100 and `:04d` below 10000.
pad2 : ℕ → String
pad2 n = digit (n / 10 % 10) ++ digit (n % 10)

pad4 : ℕ → String
pad4 n = digit (n / 1000 % 10) ++ digit (n / 100 % 10) ++ digit (n / 10 % 10) ++ digit (n % 10)

unfoldable pub period_label : Resource → Date → String
unfolding pad2 pad4
period_label resource now =
    if is_monthly resource
    then pad4 now.year ++ "-" ++ pad2 now.month
    else pad4 now.year ++ "-" ++ pad2 now.month ++ "-" ++ pad2 now.day

-- The day on which the period ends: the first of the next month, or the next day. The latter is
-- kept as the number of a day, since only the difference to now is used.
unfoldable pub next_month : Date → Date
next_month now =
    if ltb now.month 12
    then record { year = now.year; month = now.month + 1; day = 1 }
    else record { year = now.year + 1; month = 1; day = 1 }

unfoldable pub period_end : Resource → Date → ℕ
unfolding ordinal next_month
period_end resource now = if is_monthly resource then ordinal (next_month now) else ordinal now + 1

abbrev pub gauge_ttl_seconds : ℕ
gauge_ttl_seconds = 3600

-- `int((end + grace - now).total_seconds())`, with a grace of one day.
unfoldable pub period_ttl : Resource → Moment → ℕ
unfolding ordinal
period_ttl resource now =
    ((period_end resource now.date + 1 - ordinal now.date) * day_seconds * million - now.micros)
    / million

unfoldable pub key_of : String → Resource → Moment → String
key_of tenant_id resource now =
    if is_gauge resource
    then tenant_key tenant_id ("quota" ∷ name resource ∷ [])
    else tenant_key tenant_id ("quota" ∷ name resource ∷ period_label resource now.date ∷ [])

unfoldable pub ttl_of : Resource → Moment → ℕ
unfolding period_ttl
ttl_of resource now = if is_gauge resource then gauge_ttl_seconds else period_ttl resource now

-- The calendar adds up: a year has 365 or 366 days, the sum of its months.
abbrev leap_days : ℕ → ℕ
leap_days y = if is_leap y then 1 else 0

days_before_year-suc :
    (y : ℕ) → days_before_year (suc y + 1) ≡ days_before_year (suc y) + 365 + leap_days (suc y)
days_before_year-suc y = ground arith

days_before_month-december :
    (y : ℕ) → days_before_month_count y 11 + days_in_month y 12 ≡ 365 + leap_days y
days_before_month-december y = elim (Bool-cases (is_leap y)) [
  | inl leap ↦ rw leap
  | inr common ↦ rw common
]

days_before_month-suc :
    (y m : ℕ)
    → days_before_month y (suc m + 1) ≡ days_before_month y (suc m) + days_in_month y (suc m)
days_before_month-suc y m =
    let e : suc m + 1 - 1 ≡ suc m = omega arith in
    let e' : suc m - 1 ≡ m = omega arith in rw (e, e')

next_month-ordinal_parts :
    (y m d : ℕ)
    → m < 12
    → ordinal (next_month (record { year = suc y; month = suc m; day = d })) + d
      ≡ ordinal (record { year = suc y; month = suc m; day = d })
        + days_in_month (suc y) (suc m)
        + 1
unfolding ordinal next_month
next_month-ordinal_parts y m d h = elim (Bool-cases (ltb (suc m) 12)) [
  | inl before ↦ rw before (omega (arith, days_before_month-suc (suc y) m))
  | inr december ↦
      let e : m ≡ 11 = ground arith in
      rw (december, e) (omega (arith, days_before_year-suc y, days_before_month-december (suc y)))
]

-- From a valid date to the first of the next month there are as many days as are left of the month.
pub next_month-ordinal :
    (now : Date)
    → IsDate now
    → ordinal (next_month now) + now.day ≡ ordinal now + days_in_month now.year now.month + 1
next_month-ordinal now h =
    let y : now.year ≡ suc (now.year - 1) = omega (arith, h.year_pos) in
    let m : now.month ≡ suc (now.month - 1) = omega (arith, h.month_pos) in
    rw (y, m) (next_month-ordinal_parts (now.year - 1) (now.month - 1) now.day (omega arith))

-- A period ends after the moment, at most 31 days later.
period_end_bounds :
    (resource : Resource) (now : Date)
    → IsDate now
    → (ordinal now < period_end resource now) × (period_end resource now ≤ ordinal now + 31)
unfolding period_end
period_end_bounds resource now h = elim (Bool-cases (is_monthly resource)) [
  | inl monthly ↦ rw monthly (ground (arith, next_month-ordinal now h))
  | inr daily ↦ rw daily (omega arith)
]

-- The microsecond at which a moment stands, and at which a day begins.
abbrev pub at_micros : Moment → ℕ
at_micros now = ordinal now.date * day_seconds * million + now.micros

abbrev pub day_start : ℕ → ℕ
day_start n = n * day_seconds * million

-- A period's counter, set to expire at a valid moment of the period, is alive until less than a
-- second short of one day after the period's end, and is gone one day after it; its time to live
-- is at least a day.
period_ttl_bounds :
    (resource : Resource) (now : Moment)
    → IsMoment now
    → (day_start (period_end resource now.date + 1)
        < at_micros now + (period_ttl resource now + 1) * million)
      × (at_micros now + period_ttl resource now * million
          ≤ day_start (period_end resource now.date + 1))
      × (day_seconds ≤ period_ttl resource now)
unfolding period_ttl
period_ttl_bounds resource now h =
    let b = period_end_bounds resource now.date h.is_date in
    (
      omega (arith, b.0, h.micros_lt),
      omega (arith, b.0, h.micros_lt),
      omega (arith, b.0, h.micros_lt),
    )

pub ttl_of_pos : (resource : Resource) (now : Moment) → IsMoment now → 0 < ttl_of resource now
unfolding ttl_of
ttl_of_pos resource now h = ground (arith, (period_ttl_bounds resource now h).2)
