-- ===== src/Quota/Service/Reconcile.antt =====
-- backend/services/platform/reconciliation.py: the daily reconciliation of a tenant's counters with
-- the facts of the database, and the rows of `QuotaCounterRepository` of
-- backend/repositories/platform.py.
use text.Mathlib.Text.{◌==◌}
use lumina_ai.Prelude.{
  ℕ, ◌<◌, ◌≡◌, ◌≢◌, refl, sym, ap, ◌∙◌, ◌⊎◌, inl, inr, String, Bool, true, false, ◌&&◌, Option,
  none, some, List, [], ◌∷◌, arith, eq_iff, Bool-cases, if◌then◌else◌,
}
use Prim.Native.Char.{code}
use lumina_ai.Prelude as Nat
use lumina_ai.Prelude.Int.{pos}
use lumina_ai.Redis.{Counters}
use lumina_ai.Redis.Keys.{tenant_key-ne}
use lumina_ai.Quota.Resource.{Resource, tokens_month, messages_day, documents, storage_bytes, same}
use lumina_ai.Quota.Period.{Date, Moment, IsMoment, key_of, ttl_of, ttl_of_pos}
use lumina_ai.Quota.Service.{Site, World, limits, correct, count}

-- A row of the counters, kept once for each resource and period.
pub record CounterRow : Type 0 where
  pub resource : Resource
  pub period_start : Date
  pub used : ℕ
  pub limit : Option ℕ

abbrev pub same_date : Date → Date → Bool
same_date a b = Nat.◌==◌ a.year b.year && Nat.◌==◌ a.month b.month && Nat.◌==◌ a.day b.day

-- `update_or_create`. The period goes with the resource, so it is no key of its own.
unfoldable pub upsert_counter : CounterRow → List CounterRow → List CounterRow
upsert_counter row [] = row ∷ []
upsert_counter row (r ∷ rs) =
    let rest = upsert_counter row rs in
    if same row.resource r.resource && same_date row.period_start r.period_start
    then row ∷ rs
    else r ∷ rest

-- `_Fact`, with the start of its period.
pub record Fact : Type 0 where
  pub resource : Resource
  pub period_start : Date
  pub used : ℕ
  pub corrects_redis : Bool

-- What the database says of the tenant.
pub record Usage : Type 0 where
  pub llm_token_total : ℕ
  pub assistant_count : ℕ
  pub active_count : ℕ
  pub active_size_bytes : ℕ

abbrev pub month_start : Date → Date
month_start now = record now { day = 1 }

unfoldable pub facts_of : Date → Usage → List Fact
facts_of now u =
    record {
      resource = tokens_month;
      period_start = month_start now;
      used = u.llm_token_total;
      corrects_redis = true;
    }
    ∷ record {
      resource = messages_day;
      period_start = now;
      used = u.assistant_count;
      corrects_redis = true;
    }
    ∷ record {
      resource = documents;
      period_start = now;
      used = u.active_count;
      corrects_redis = false;
    }
    ∷ record {
      resource = storage_bytes;
      period_start = now;
      used = u.active_size_bytes;
      corrects_redis = false;
    }
    ∷ []

module _ (r : Counters) where
  open r use {cache.{get, get_set}}

  -- The loop over the facts. `correct` reads the clock again: `clock` is what it reads.
  unfoldable pub apply_facts :
      Site → Moment → List Fact → List CounterRow × World r → List CounterRow × World r
  unfolding upsert_counter limits
  apply_facts c clock [] (rows, w) = (rows, w)
  apply_facts c clock (f ∷ fs) (rows, w) = apply_facts c clock fs (
    upsert_counter
        (record {
          resource = f.resource;
          period_start = f.period_start;
          used = f.used;
          limit = limits c f.resource;
        })
        rows,
    (if f.corrects_redis then correct r c f.resource (pos f.used) clock w else w),
  )

  unfoldable pub reconcile_tenant :
      Site → Date → Moment → Usage → List CounterRow × World r → List CounterRow × World r
  unfolding facts_of apply_facts
  reconcile_tenant c today clock u state = apply_facts c clock (facts_of today u) state

  keys_differ :
      (t : String) (clock : Moment) → key_of t tokens_month clock ≢ key_of t messages_day clock
  unfolding key_of
  keys_differ t clock = tenant_key-ne _ _ _ _ _ _ _ _ (λ e. omega (arith, ap code e))

  -- After a reconciliation the counters of the tokens and of the messages, of the periods in which
  -- it corrects them, are what the database says, and every other counter is as it was.
  pub reconcile_tenant_lem :
      (c : Site) (today : Date) (clock : Moment) (u : Usage) (rows : List CounterRow) (w : World r)
      (j : String)
      → IsMoment clock
      → count r (reconcile_tenant c today clock u (rows, w)).1.store j ≡ (
          if key_of c.tenant_id tokens_month clock == j
          then pos u.llm_token_total
          else if key_of c.tenant_id messages_day clock == j
          then pos u.assistant_count
          else count r w.store j)
  unfolding reconcile_tenant facts_of apply_facts correct
  reconcile_tenant_lem c today clock u rows w j valid =
      let k = key_of c.tenant_id tokens_month clock in
      let m = key_of c.tenant_id messages_day clock in
      let s = w.store in
      let first =
        get_set s k (pos u.llm_token_total) (ttl_of tokens_month clock) j
          (ttl_of_pos tokens_month clock valid) in
      let second =
        get_set (r.cache.set s k (pos u.llm_token_total) (ttl_of tokens_month clock)) m
          (pos u.assistant_count) (ttl_of messages_day clock) j
          (ttl_of_pos messages_day clock valid) in
      elim (Bool-cases (k == j)) [
        | inr other ↦ ground (arith, first, second, other)
        | inl tokens ↦ elim (Bool-cases (m == j)) [
          | inr others ↦ ground (arith, first, second, tokens, others)
          | inl messages ↦ absurd (
              keys_differ c.tenant_id clock ((eq_iff k j).0 tokens ∙ sym ((eq_iff m j).0 messages)))
        ]
      ]
