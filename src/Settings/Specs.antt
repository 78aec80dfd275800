-- ===== src/Settings/Specs.antt =====
-- `ParamSpec` and `SECTIONS` of backend/services/knowledge/kb_config.py.
use lumina_ai.Prelude.{
  ℕ, String, Bool, false, ◌||◌, Option, none, some, List, [], ◌∷◌, if◌then◌else◌,
}
use lumina_ai.Prelude.Int.{pos}
use lumina_ai.Settings.Values.{Number, int, float, finite, one}
use text.Mathlib.Text.{◌==◌}

pub data Kind : Type 0 where
  int_kind float_kind choice_kind : Kind

pub record ParamSpec : Type 0 where
  pub default_attr : String
  pub kind : Kind
  pub low : Option Number
  pub high : Option Number
  pub choices : List String
  pub high_of : Option String

-- A mapping with texts for keys; the first entry of a key is its value.
abbrev pub Mapping {ℓ} : Type ℓ → Type ℓ
Mapping A = List (String × A)

unfoldable pub lookup {ℓ} : {A : Type ℓ} → String → Mapping A → Option A
lookup key [] = none
lookup key ((k, a) ∷ rest) = let found = lookup key rest in if k == key then some a else found

unfoldable pub is_choice : String → List String → Bool
is_choice s [] = false
is_choice s (c ∷ cs) = (s == c) || is_choice s cs

abbrev pub max_top_k : ℕ
max_top_k = 200

abbrev pub max_context_chunks : ℕ
max_context_chunks = 50

abbrev pub max_token_budget : ℕ
max_token_budget = 100000

abbrev pub max_rrf_k : ℕ
max_rrf_k = 1000

abbrev pub max_history_turns : ℕ
max_history_turns = 10

abbrev pub min_target_tokens : ℕ
min_target_tokens = 64

abbrev pub max_target_tokens : ℕ
max_target_tokens = 4000

unfoldable pub retrieval_modes : List String
retrieval_modes = "vector" ∷ "vector+rerank" ∷ "hybrid" ∷ "hybrid+rerank" ∷ []

abbrev pub int_between : String → ℕ → ℕ → ParamSpec
int_between attr low high = record {
  default_attr = attr;
  kind = int_kind;
  low = some (int (pos low));
  high = some (int (pos high));
  choices = [];
  high_of = none;
}

abbrev pub unit_float : String → ParamSpec
unfolding one
unit_float attr = record {
  default_attr = attr;
  kind = float_kind;
  low = some (float (finite (pos 0)));
  high = some (float (finite (pos one)));
  choices = [];
  high_of = none;
}

unfoldable pub retrieval_specs : Mapping ParamSpec
unfolding retrieval_modes
retrieval_specs =
    ("top_k", int_between "rag_top_k" 1 max_top_k)
    ∷ ("fts_top_k", int_between "rag_fts_top_k" 1 max_top_k)
    ∷ ("rrf_k", int_between "rag_rrf_k" 1 max_rrf_k)
    ∷ ("hybrid_candidates", int_between "rag_hybrid_candidates" 1 max_top_k)
    ∷ (
      "retrieval_mode",
      record {
        default_attr = "rag_retrieval_mode";
        kind = choice_kind;
        low = none;
        high = none;
        choices = retrieval_modes;
        high_of = none;
      },
    )
    ∷ ("rerank_threshold", unit_float "rag_rerank_threshold")
    ∷ ("context_chunks", int_between "rag_context_chunks" 1 max_context_chunks)
    ∷ ("context_token_budget", int_between "rag_context_token_budget" 1 max_token_budget)
    ∷ ("min_score_ratio", unit_float "rag_min_score_ratio")
    ∷ ("query_history_turns", int_between "rag_query_history_turns" 0 max_history_turns)
    ∷ []

unfoldable pub chunk_specs : Mapping ParamSpec
chunk_specs =
    ("target_tokens", int_between "chunk_target_tokens" min_target_tokens max_target_tokens)
    ∷ (
      "overlap_tokens",
      record {
        default_attr = "chunk_overlap_tokens";
        kind = int_kind;
        low = some (int (pos 0));
        high = none;
        choices = [];
        high_of = some "target_tokens";
      },
    )
    ∷ []

unfoldable pub sections : Mapping (Mapping ParamSpec)
unfolding retrieval_specs chunk_specs
sections = ("retrieval", retrieval_specs) ∷ ("chunk", chunk_specs) ∷ []
