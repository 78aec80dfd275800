-- ===== src/Tests/Identity.antt =====
-- Sessions: tokens that carry their claims in a table, and a server in memory.
use Prim.Native.Char.{code}
use mathlib.Core.Bool.{false≢true}
use text.Mathlib.Text.{◌==◌}
use lumina_ai.Prelude.{
  ℕ, suc, ◌+◌, ◌-◌, ◌≤◌, ◌≡◌, ◌≢◌, refl, sym, ap, false, Option, none, some, String, List, [], ◌∷◌,
  arith, eq_iff, ltb, leb, length, replicate, if◌then◌else◌,
}
use lumina_ai.Prelude.Int.{ℤ}
use lumina_ai.Redis.{Cache, tenant_key}
use lumina_ai.Redis.Memory.{memory, counters, Memory}
use lumina_ai.Identity.Tokens.{
  Jwt, Payload, Decoded, payload, expired, broken, TokenCodec, IssuedToken, AccessClaims,
  RefreshClaims, ok, raised, token_revoked, token_invalid, token_expired, refresh_ttl,
  clock_skew_leeway, decode, decode_refresh, issue_refresh, decode_refresh-issue_refresh,
}
use lumina_ai.Identity.Rotation.{rotate_family, family_key}
use lumina_ai.Identity.Rotation.Grace.{rotate_family_replay, rotate_family_race, race}
use lumina_ai.Identity.Attempts.{
  LoginLimits, ensure_not_locked, clear_password_failures, failures, ensure_not_locked_lem,
}
use lumina_ai.Identity.Sessions.{
  Passwords, TokenPair, World, Site, login, refresh, logout, revoke_all_sessions,
  describe_access_token, later,
}
use lumina_ai.Identity.Users.{User}
use lumina_ai.Identity.Sessions.Login.{refresh-login}
use lumina_ai.Identity.Sessions.Revocation.{revoke_all_sessions_ends}

abbrev sessions : Cache String
sessions = memory String

abbrev family_store : Memory String
family_store k = if k == family_key "acme" "f1" then some ("j0", some 1000) else none

abbrev numbers : Memory ℤ
numbers k = none

abbrev first_token : IssuedToken
first_token = record { token = "t1"; jti = "j1"; expires_at = 1000 }

abbrev second_token : IssuedToken
second_token = record { token = "t2"; jti = "j2"; expires_at = 1000 }

abbrev third_token : IssuedToken
third_token = record { token = "t3"; jti = "j3"; expires_at = 1000 }

j1-ne-j0 : first_token.jti ≢ "j0"
j1-ne-j0 e = false≢true ((eq_iff "j1" "j0").1 e)

abbrev three_tries : LoginLimits
three_tries = record { max_attempts = 3; lockout_seconds = 900 }

abbrev pauses : List ℕ
pauses = 10 ∷ 20 ∷ []

-- A codec for one refresh token and one access token.
abbrev refresh_claimed : Payload
refresh_claimed = record {
  typ = "refresh";
  sub = "u1";
  tenant_id = "acme";
  roles = [];
  family_id = "f1";
  jti = "j0";
  token_version = 1;
  exp = 1209600;
  iat = 0;
}

abbrev access_claimed : Payload
access_claimed = record {
  typ = "access";
  sub = "u1";
  tenant_id = "acme";
  roles = [];
  family_id = "";
  jti = "a0";
  token_version = 1;
  exp = 900;
  iat = 0;
}

abbrev header_kid : String → Option String
header_kid String.[] = none
header_kid (String.◌∷◌ c s) = some s

abbrev valid_until : ℕ → ℕ → Payload → Decoded
valid_until leeway now p = if ltb now (p.exp + leeway) then payload p else expired

abbrev decoded : String → ℕ → ℕ → Decoded
decoded String.[] leeway now = broken
decoded (String.◌∷◌ c s) leeway now =
    valid_until leeway now (if leb (code c) b'a' then access_claimed else refresh_claimed)

decoded-refresh :
    (private_key public_key kid : String) (p : Payload) (leeway now : ℕ)
    → Unit {0}
    → p ≡ refresh_claimed
    → p.iat ≤ now + leeway
    → decoded (String.◌∷◌ "x" kid) leeway now
      ≡ (if ltb now (p.exp + leeway) then payload p else expired)
decoded-refresh private_key public_key kid p leeway now pair e past =
    ap (valid_until leeway now) (sym e)

abbrev plain : Jwt
plain = record {
  encode = λ private_key kid p. String.◌∷◌ "x" kid;
  header_kid = header_kid;
  decode = λ token public_key leeway now. decoded token leeway now;
  Pair = λ private_key public_key. Unit;
  Serialises = λ p. p ≡ refresh_claimed;
  header_kid-encode = λ private_key kid p. refl;
  decode-encode = decoded-refresh;
}

abbrev codec : TokenCodec plain
codec = record { private_key_pem = "pem"; public_keys = ("k1", "key") ∷ []; active_kid = "k1" }

abbrev passwords : Passwords
passwords = record {
  verify_password = λ password hash. password == hash;
  hash_password = λ password. password;
  needs_rehash = λ hash. false;
}

abbrev ann : User
ann = record {
  id = "u1";
  tenant_id = "acme";
  email = "ann";
  password_hash = "secret";
  status = "active";
  token_version = 1;
  roles = [];
  last_login_at = none;
}

abbrev world : World plain sessions counters passwords
world = record { texts = λ k. none; numbers = numbers; users = ann ∷ []; audit = [] }

abbrev site : Site plain sessions counters passwords
site = record { codec = codec; login_limits = three_tries; grace_seconds = 10 }

abbrev refresh_token : String
refresh_token = "xk1"

abbrev access_token : String
access_token = "ak1"

abbrev claims : RefreshClaims
claims = record {
  sub = "u1";
  tenant_id = "acme";
  family_id = "f1";
  jti = "j0";
  token_version = 1;
  expires_at = 1209600;
}

abbrev described : AccessClaims
described = record {
  sub = "u1";
  tenant_id = "acme";
  roles = [];
  jti = "a0";
  token_version = 1;
  expires_at = 900;
}

rotate_family_replay_example :
    let s1 =
      sessions.elapse
        (rotate_family sessions 0 10 "acme" "f1" "j0" first_token family_store).0
        20 in
    let s2 = rotate_family sessions 60 10 "acme" "f1" "j0" second_token s1 in
    (s2.1 ≡ raised token_revoked)
    × (sessions.get s2.0 (family_key "acme" "f1") ≡ none)
    × ((rotate_family sessions 60 10 "acme" "f1" first_token.jti third_token s2.0).1
        ≡ raised token_revoked)
unfolding tenant_key
rotate_family_replay_example =
    rotate_family_replay sessions 0 10 20 60 "acme" "f1" "j0" first_token second_token third_token
      family_store refl j1-ne-j0 refl (omega arith) (omega arith)

rotate_family_race_example :
    race sessions 0 10 "acme" "f1" "j0"
      (first_token ∷ (second_token ∷ third_token ∷ []))
      family_store
    ≡ replicate (suc (length (second_token ∷ third_token ∷ []))) (ok first_token.token)
unfolding tenant_key
rotate_family_race_example =
    rotate_family_race sessions 0 10 "acme" "f1" "j0" first_token (second_token ∷ third_token ∷ [])
      family_store refl j1-ne-j0 (omega arith)

ensure_not_locked_lem_example :
    let s1 =
      counters.cache.elapse
        (failures counters three_tries "acme" "ann"
          (0 ∷ pauses)
          (clear_password_failures counters "acme" "ann" numbers))
        5 in
    (ensure_not_locked counters three_tries "acme" "ann" s1 ≡ (
      if leb three_tries.max_attempts (suc (length pauses))
      then some (three_tries.lockout_seconds - 5)
      else none))
    × (ensure_not_locked counters three_tries "acme" "ann"
          (clear_password_failures counters "acme" "ann" s1)
        ≡ none)
ensure_not_locked_lem_example =
    ensure_not_locked_lem counters three_tries "acme" "ann" 0 5 pauses numbers refl

decode_refresh-issue_refresh_example :
    let token = (issue_refresh plain codec 0 "j0" "u1" "acme" "f1" 1).token in
    (decode_refresh plain codec 200 token ≡ (
      if ltb 200 (0 + refresh_ttl + clock_skew_leeway)
      then ok record {
        sub = "u1";
        tenant_id = "acme";
        family_id = "f1";
        jti = "j0";
        token_version = 1;
        expires_at = 0 + refresh_ttl;
      }
      else raised token_expired))
    × (decode plain codec 200 token ≡ (
        if ltb 200 (0 + refresh_ttl + clock_skew_leeway)
        then raised token_invalid
        else raised token_expired))
decode_refresh-issue_refresh_example =
    decode_refresh-issue_refresh plain codec "key" 0 200 "j0" "u1" "acme" "f1" 1 refl tt refl
      (omega arith)

refresh-login_example :
    let opened =
      login plain sessions counters passwords site 0 "a0" "j0" "f1" "acme" "ann" "secret" world in
    (pair : TokenPair) × (opened.1 ≡ ok pair)
    × ((next : TokenPair) × ((refresh plain sessions counters passwords site
            (0 + 60)
            "a1"
            "j1"
            pair.refresh_token
            (later plain sessions counters passwords 60 opened.0)).1
          ≡ ok next))
unfolding ensure_not_locked
refresh-login_example =
    refresh-login plain sessions counters passwords site 0 60 "a0" "j0" "a1" "j1" "f1" "acme" "ann"
      "secret" "key" ann world refl refl refl refl refl refl tt refl (omega arith)

revoke_all_sessions_ends_example :
    let w1 = later plain sessions counters passwords 60 (
      revoke_all_sessions plain sessions counters passwords described.tenant_id described.sub
        world) in
    (describe_access_token plain sessions counters passwords site 60 access_token w1
      ≡ raised token_revoked)
    × ((refresh plain sessions counters passwords site 60 "a1" "j1" refresh_token w1).1
        ≡ raised token_revoked)
unfolding decode decode_refresh
revoke_all_sessions_ends_example =
    revoke_all_sessions_ends plain sessions counters passwords site 60 60 ann access_token
      refresh_token "a1" "j1" described claims world refl refl (omega arith) (omega arith) refl refl
      refl (omega arith)

-- In the leeway after the expiry a token that was logged out, or revoked, is accepted again.
accepted_after_logout :
    describe_access_token plain sessions counters passwords site 905 access_token (
      later plain sessions counters passwords 905 (
        logout plain sessions counters passwords site 0 false claims.tenant_id "a0" 900
          (some refresh_token)
          world))
    ≡ ok described
unfolding describe_access_token logout decode decode_refresh tenant_key
accepted_after_logout = refl

accepted_after_revocation :
    describe_access_token plain sessions counters passwords site 905 access_token (
      later plain sessions counters passwords 905 (
        revoke_all_sessions plain sessions counters passwords described.tenant_id described.sub
          world))
    ≡ ok described
unfolding describe_access_token revoke_all_sessions decode tenant_key
accepted_after_revocation = refl
