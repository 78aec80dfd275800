-- ===== src/Tests/Values.antt =====
-- Concrete inputs: a tenant, a moment, a server in memory, scores that are whole numbers.
use lumina_ai.Prelude.{
  ℕ, ◌+◌, ◌*◌, ◌/◌, ◌≡◌, ◌⊎◌, true, String, none, some, List, [], ◌∷◌, leb, arith, if◌then◌else◌,
}
use text.Mathlib.Text.{◌==◌}
use lumina_ai.Prelude.Int.{pos}
use lumina_ai.Prelude.Texts.{codes}
use lumina_ai.Redis.Memory.{counters}
use lumina_ai.Quota.Period.{Moment}
use lumina_ai.Quota.Plan.{int}
use lumina_ai.Quota.Service.{Site, World, Reservation}
use lumina_ai.Quota.Resource.{streams}
use lumina_ai.Rag.Chunk.{Floats, RetrievedChunk}

pub leb_total : (a b : ℕ) → (leb a b ≡ true) ⊎ (leb b a ≡ true)
leb_total a b = ground arith

pub leb_trans : (a b c : ℕ) → leb a b ≡ true → leb b c ≡ true → leb a c ≡ true
leb_trans a b c h k = ground arith

-- Scores in thousandths.
abbrev pub thousandths : Floats
thousandths = record {
  Float = ℕ;
  zero_float = 0;
  add = λ a b. a + b;
  mul = λ a b. a * b;
  reciprocal = λ n. 1000 / n;
  leq = leb;
  leq_total = leb_total;
  leq_trans = leb_trans;
}

abbrev chunk : ℕ → String → RetrievedChunk thousandths
chunk id content = record {
  chunk_id = id;
  document_id = 7;
  content = codes content;
  score = 500;
  page = none;
  heading_path = [];
  document_name = codes "handbook";
  doc_version = 1;
}

abbrev pub first_chunk : RetrievedChunk thousandths
first_chunk = chunk 1 "Leave is granted by the head of the department."

abbrev pub second_chunk : RetrievedChunk thousandths
second_chunk = chunk 2 "Requests are filed a week before."

abbrev pub routes : List (List (RetrievedChunk thousandths))
routes = (first_chunk ∷ second_chunk ∷ []) ∷ (second_chunk ∷ []) ∷ []

abbrev pub candidates : List (RetrievedChunk thousandths)
candidates = first_chunk ∷ second_chunk ∷ []

abbrev pub noon : Moment
noon = record { date = record { year = 2026; month = 12; day = 31 }; micros = 43200000000 }

-- Three streams and ten messages a day; no tokens at all.
abbrev pub tenant : Site
tenant = record {
  tenant_id = "acme";
  plan = [];
  overrides = some (
      ("streams", int (pos 3))
      ∷ ("messages_day", int (pos 10))
      ∷ ("tokens_month", int (pos 0))
      ∷ []);
  active_count = 0;
  active_size_bytes = 0;
  thresholds = 80 ∷ 100 ∷ [];
}

abbrev pub fresh_world : World counters
fresh_world = record { store = λ k. none; notices = [] }

abbrev pub taken : Reservation
taken = record { resource = streams; amount = 2; key = "t:acme:quota:streams"; ttl_seconds = 60 }

abbrev pub busy_world : World counters
busy_world = record {
  store = λ k. if k == "t:acme:quota:streams" then some (pos 3, none) else none;
  notices = [];
}
