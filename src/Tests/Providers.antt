-- ===== src/Tests/Providers.antt =====
-- The adapters of the model providers.
use lumina_ai.Prelude.{ℕ, zero, suc, ◌≡◌, refl, true, false, Option, none, some, List, [], ◌∷◌}
use lumina_ai.Prelude.Int.{pos}
use lumina_ai.Prelude.Texts.{Text, codes}
use lumina_ai.Tests.Values.{thousandths}
use lumina_ai.Gateway.Chat.{unavailable, rate_limited}
use lumina_ai.Gateway.Json.{Json, int, arr, obj, nil, cons, end, field, Python}
use lumina_ai.Gateway.Embed.{EmbedGateway, Timed, replied, failed, ok, raised, embed}
use lumina_ai.Gateway.Embed.Calls.{IsSettledBy, Gives, embed_lem}
use lumina_ai.Gateway.Rerank as Rank
use lumina_ai.Gateway.Rerank.{RerankedDocument, sort, answered}
use lumina_ai.Gateway.Rerank.Ranking.{indices}
use lumina_ai.Gateway.Rerank.Rows.{encode}
use lumina_ai.Gateway.Vendors.{AiSettings, build_gateway, fallback_models}
use lumina_ai.Gateway.Vendors.Requests.{IsComplete, build_gateway-IsComplete}
use lumina_ai.Gateway.Vectors.{post, FloatOps, embed_batch}
use lumina_ai.Gateway.Vectors.Order.{Belongs, embed_batch-Belongs}

-- Rate-limited, then an answer that comes too late, which is kept.
abbrev slow_provider : List Text → Text → ℕ → Timed ℕ
slow_provider texts model zero = record { reply = failed rate_limited; elapsed = 1 }
slow_provider texts model (suc k) = record {
  reply = replied (record { vectors = (1 ∷ 2 ∷ []) ∷ []; model = model; prompt_tokens = 5 });
  elapsed = 90;
}

abbrev embed_gateway : EmbedGateway ℕ
embed_gateway = record {
  provider = some slow_provider;
  timeout_seconds = 30;
  backoff = 1 ∷ 2 ∷ [];
  dimensions = 2;
}

embed_lem_example :
    (j : ℕ) × IsSettledBy 30 (slow_provider (codes "a" ∷ []) (codes "m")) (1 ∷ 2 ∷ []) 0 j
    × Gives 30 2
        (slow_provider (codes "a" ∷ []) (codes "m") j).elapsed
        (slow_provider (codes "a" ∷ []) (codes "m") j).reply
        (embed embed_gateway (codes "a" ∷ []) (codes "m"))
embed_lem_example = embed_lem embed_gateway slow_provider (codes "a") [] (codes "m") refl

late_is_kept :
    embed embed_gateway (codes "a" ∷ []) (codes "m")
    ≡ ok (record { vectors = (1 ∷ 2 ∷ []) ∷ []; model = codes "m"; usage = 5 })
unfolding embed
late_is_kept = refl

abbrev no_python : Python
no_python = record {
  loads = λ t. none;
  int_of_float = λ t. none;
  int_of_text = λ t. none;
  is_nonzero = λ t. true;
  shown = λ v. [];
}

abbrev to_thousandths : Json → Option ℕ
to_thousandths (int (pos n)) = some n
to_thousandths _ = none

abbrev ranked : List (RerankedDocument thousandths)
ranked =
    record { index = 2; score = 300 }
    ∷ record { index = 0; score = 900 }
    ∷ record { index = 1; score = 300 }
    ∷ []

abbrev candidates : List Text
candidates = codes "a" ∷ codes "b" ∷ codes "c" ∷ []

abbrev ask_tei : Text → List Text → Rank.Reply
ask_tei query documents =
    answered 200 (
      some
        (arr (encode thousandths no_python to_thousandths (λ n. int (pos n)) (λ n. refl) ranked)))

best_first : indices thousandths (sort thousandths ranked) ≡ 0 ∷ 1 ∷ 2 ∷ []
unfolding sort
best_first = refl

abbrev settings : AiSettings
settings = record {
  embedding_provider = codes "vllm";
  embedding_api_key = none;
  embedding_base_url = none;
  embedding_dimensions = 1024;
  chat_provider = codes "openai";
  chat_api_key = some (codes "key");
  chat_base_url = some [];
  chat_fallback_models = codes "a,, b ,";
  rerank_provider = codes "jina";
  rerank_api_key = some (codes "key");
  rerank_base_url = none;
}

build_gateway-IsComplete_example : IsComplete (build_gateway settings)
build_gateway-IsComplete_example = build_gateway-IsComplete settings

two_fallbacks : fallback_models (codes "a,, b ,") ≡ codes "a" ∷ codes "b" ∷ []
unfolding fallback_models
two_fallbacks = refl

no_key_fails : build_gateway (record settings { chat_api_key = some [] }) ≡ raised unavailable
unfolding build_gateway
no_key_fails = refl

abbrev nat_floats : FloatOps
nat_floats = record {
  Float = ℕ;
  zero_float = 0;
  add = λ a b. Prim.Native.Nat.◌+◌ a b;
  mul = λ a b. Prim.Native.Nat.◌*◌ a b;
  div = λ a b. a;
  sqrt = λ a. a;
  is_zero = λ a. false;
  to_float = to_thousandths;
}

-- The rows come in another order; the first one leaves its index 0 out.
abbrev ask_vectors : List Text → Text → Rank.Reply
ask_vectors texts model = answered 200 (
    some (
      obj (
        field (codes "data")
          (arr (
            cons
              (obj (
                field (codes "index") (int (pos 1))
                  (field (codes "embedding") (arr (cons (int (pos 7)) nil)) end)))
              (cons (obj (field (codes "embedding") (arr (cons (int (pos 5)) nil)) end)) nil)))
          end)))

embed_batch-Belongs_example :
    Belongs nat_floats no_python
      (codes "a" ∷ codes "b" ∷ [])
      (post (ask_vectors (codes "a" ∷ codes "b" ∷ []) (codes "m")))
      (embed_batch nat_floats no_python ask_vectors (codes "a" ∷ codes "b" ∷ []) (codes "m"))
embed_batch-Belongs_example =
    embed_batch-Belongs nat_floats no_python ask_vectors (codes "a") (codes "b" ∷ []) (codes "m")

in_order_again :
    embed_batch nat_floats no_python ask_vectors (codes "a" ∷ codes "b" ∷ []) (codes "m")
    ≡ ok (record { vectors = (5 ∷ []) ∷ (7 ∷ []) ∷ []; model = codes "m"; prompt_tokens = 1 })
unfolding embed_batch
in_order_again = refl
