-- ===== src/Api/RateLimit.antt =====
-- backend/api/middleware/rate_limit.py: how many requests of one address pass in a minute.
pub mod Window
use Prim.Native.String.{◌++◌}
use lumina_ai.Prelude.{
  ℕ, ◌+◌, ◌/◌, String, Bool, true, false, Option, none, some, List, [], ◌∷◌, ◌==◌, leb,
  if◌then◌else◌,
}
use lumina_ai.Prelude.Int.{ℤ, pos, ltb_ℤ, leb_ℤ}
use lumina_ai.Prelude.Texts.{Text, codes, same_text, is_empty, strip, split_on, decimal}
use lumina_ai.Redis.{Counters, or_zero}

-- The lower case of an ASCII byte.
abbrev pub lower : ℕ → ℕ
lower c = if leb 65 c then (if leb c 90 then c + 32 else c) else c

abbrev pub lower_text : Text → Text
lower_text [] = []
lower_text (c ∷ t) = lower c ∷ lower_text t

abbrev pub forwarded_for : Text
forwarded_for = codes "x-forwarded-for"

abbrev pub first_part : List Text → Text
first_part [] = []
first_part (p ∷ ps) = strip p

-- The first address that a `X-Forwarded-For` header names.
unfoldable pub forwarded : List (Text × Text) → Option Text
unfolding strip split_on
forwarded [] = none
forwarded ((name, value) ∷ headers) =
    let rest = forwarded headers in
    let first = first_part (split_on 44 value) in
    if same_text (lower_text name) forwarded_for
    then (if is_empty first then rest else some first)
    else rest

abbrev pub or_unknown : Option Text → Text
or_unknown none = codes "unknown"
or_unknown (some host) = if is_empty host then codes "unknown" else host

-- What the middleware reads of a request; the host is that of `scope["client"]`, if there is one.
pub record Scope : Type 0 where
  pub is_http : Bool
  pub path : Text
  pub headers : List (Text × Text)
  pub client : Option Text

-- `_client_ip`.
unfoldable pub client_ip : Bool → Scope → Text
unfolding forwarded
client_ip true scope = elim (forwarded scope.headers) [
  | none ↦ or_unknown scope.client
  | some address ↦ address
]
client_ip false scope = or_unknown scope.client

pub record RateSettings : Type 0 where
  pub rate_limit_enabled : Bool
  pub rate_limit_trust_proxy_headers : Bool
  pub rate_limit_auth_per_minute : ℤ
  pub rate_limit_per_minute : ℤ

abbrev pub starts_with : Text → Text → Bool
starts_with [] t = true
starts_with (c ∷ p) [] = false
starts_with (c ∷ p) (d ∷ t) = if c == d then starts_with p t else false

unfoldable pub is_exempt : Text → Bool
is_exempt path =
    if same_text path (codes "/healthz") then true else same_text path (codes "/readyz")

unfoldable pub is_auth : Text → Bool
is_auth path = starts_with (codes "/api/v1/auth") path

abbrev pub key_ttl : ℕ
key_ttl = 121

-- The key of a window: its bucket, its address and its number. `of_text` is the text as a key.
unfoldable pub window_key : (Text → String) → Bool → Text → ℕ → String
unfolding decimal
window_key of_text auth ip now =
    "rl:" ++ (if auth then "auth" else "api") ++ ":" ++ of_text ip ++ ":" ++ decimal (now / 60)

pub data Decision : Type 0 where
  pass refuse : Decision

module _ (r : Counters) where
  open r use {incrby, cache.{Store, get, expire}}

  -- `_within` on a server that answers: INCR, EXPIRE with the first request, and the comparison.
  unfoldable pub within : String → ℤ → Store → Bool × Store
  within key limit s =
      let counted = incrby s key (pos 1) in
      let used = or_zero (get counted key) in
      (
        leb_ℤ used limit,
        if leb_ℤ used (pos 1)
            then (if leb_ℤ (pos 1) used then expire counted key key_ttl else counted)
            else counted,
      )

  abbrev pub decision_of : Bool × Store → Decision × Store
  decision_of (true, s) = (pass, s)
  decision_of (false, s) = (refuse, s)

  -- A server that does not answer lets the request through.
  unfoldable pub within_if_up : Bool → String → ℤ → Store → Bool × Store
  unfolding within
  within_if_up true key limit s = within key limit s
  within_if_up false key limit s = (true, s)

  -- `__call__`: what happens to a request at an instant, in seconds.
  unfoldable pub call : (Text → String) → RateSettings → Bool → ℕ → Scope → Store → Decision × Store
  unfolding client_ip is_exempt is_auth window_key within_if_up
  call of_text settings up now scope s =
      if scope.is_http
      then (if settings.rate_limit_enabled
          then (if is_exempt scope.path
              then (pass, s)
              else (let auth = is_auth scope.path in
                  let limit =
                    if auth
                    then settings.rate_limit_auth_per_minute
                    else settings.rate_limit_per_minute in
                  if leb_ℤ limit (pos 0)
                  then (pass, s)
                  else decision_of (
                      within_if_up up
                        (window_key of_text auth
                          (client_ip settings.rate_limit_trust_proxy_headers scope) now)
                        limit s)))
          else (pass, s))
      else (pass, s)
