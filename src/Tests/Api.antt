-- ===== src/Tests/Api.antt =====
-- The rate limit.
use lumina_ai.Prelude.{
  ℕ, ◌≡◌, refl, String, true, false, Option, none, some, List, [], ◌∷◌, min, arith,
}
use lumina_ai.Prelude.Int.{ℤ, pos}
use lumina_ai.Prelude.Texts.{codes}
use lumina_ai.Redis.Memory.{counters}
use lumina_ai.Api.RateLimit.{Scope, client_ip}
use lumina_ai.Api.RateLimit.Window.{passes, hits_of, passes_exact}

abbrev empty_store : String → Option (ℤ × Option ℕ)
empty_store k = none

abbrev three_hits : List (ℕ × String)
three_hits = (0, "rl:api:a:1") ∷ (5, "rl:api:b:1") ∷ (1, "rl:api:a:1") ∷ (50, "rl:api:a:1") ∷ []

abbrev from_proxy : Scope
from_proxy = record {
  is_http = true;
  path = codes "/api/v1/auth/login";
  headers = (codes "X-Forwarded-For", codes " 10.0.0.7 , 10.0.0.1") ∷ [];
  client = some (codes "172.17.0.1");
}

address_of_proxy : client_ip true from_proxy ≡ codes "10.0.0.7"
unfolding client_ip
address_of_proxy = refl

header_not_trusted : client_ip false from_proxy ≡ codes "172.17.0.1"
unfolding client_ip
header_not_trusted = refl

passes_exact_example :
    passes counters "rl:api:a:1" (pos 2) three_hits empty_store
    ≡ min 2 (hits_of "rl:api:a:1" three_hits)
passes_exact_example =
    passes_exact counters "rl:api:a:1" 2 three_hits empty_store refl (omega arith)
