-- ===== src/Identity/Tokens.antt =====
-- backend/services/identity/tokens.py: issuing and checking tokens. PyJWT is a parameter. A moment
-- is a number of seconds; a UUID is its text.
use text.Mathlib.Text.{◌==◌}
use lumina_ai.Prelude.{
  ℕ, ◌+◌, ◌≤◌, String, ◌≡◌, Option, none, some, List, [], ◌∷◌, ltb, arith, if◌then◌else◌,
}

-- The claims that the payloads carry; `family_id` is in those of refresh tokens only.
pub record Payload : Type 0 where
  pub typ : String
  pub sub : String
  pub tenant_id : String
  pub roles : List String
  pub family_id : String
  pub jti : String
  pub token_version : ℕ
  pub exp : ℕ
  pub iat : ℕ

pub data AuthError : Type 0 where
  invalid_credentials token_revoked token_invalid token_expired : AuthError
  account_locked : ℕ → AuthError

pub data Checked (A : Type 0) : Type 0 where
  ok : A → Checked A
  raised : AuthError → Checked A

-- `jwt.decode`: the payload, or `ExpiredSignatureError`, or another `PyJWTError`.
pub data Decoded : Type 0 where
  payload : Payload → Decoded
  expired : Decoded
  broken : Decoded

-- `jwt.encode(payload, private_key, headers={"kid": kid})`, the `kid` of the unverified header, and
-- `jwt.decode(token, public_key, leeway=leeway)` at a moment. `Pair` relates the two halves of a key;
-- `Serialises` are the payloads that their JSON gives back.
pub record Jwt : Type 1 where
  pub encode : String → String → Payload → String
  pub header_kid : String → Option String
  pub decode : String → String → ℕ → ℕ → Decoded
  pub Pair : String → String → Type 0
  pub Serialises : Payload → Type 0
  pub header_kid-encode :
      (private_key kid : String) (p : Payload) → header_kid (encode private_key kid p) ≡ some kid
  pub decode-encode :
      (private_key public_key kid : String) (p : Payload) (leeway now : ℕ)
      → Pair private_key public_key
      → Serialises p
      → p.iat ≤ now + leeway
      → decode (encode private_key kid p) public_key leeway now
        ≡ (if ltb now (p.exp + leeway) then payload p else expired)

abbrev pub access_ttl : ℕ
access_ttl = 900

abbrev pub refresh_ttl : ℕ
refresh_ttl = 1209600

abbrev pub clock_skew_leeway : ℕ
clock_skew_leeway = 10

pub record IssuedToken : Type 0 where
  pub token : String
  pub jti : String
  pub expires_at : ℕ

pub record AccessClaims : Type 0 where
  pub sub : String
  pub tenant_id : String
  pub roles : List String
  pub jti : String
  pub token_version : ℕ
  pub expires_at : ℕ

pub record RefreshClaims : Type 0 where
  pub sub : String
  pub tenant_id : String
  pub family_id : String
  pub jti : String
  pub token_version : ℕ
  pub expires_at : ℕ

-- `public_keys`, by `kid`.
abbrev pub public_key_of : List (String × String) → String → Option String
public_key_of [] kid = none
public_key_of ((k, key) ∷ keys) kid = if k == kid then some key else public_key_of keys kid

module _ (jwt : Jwt) where
  pub record TokenCodec : Type 0 where
    pub private_key_pem : String
    pub public_keys : List (String × String)
    pub active_kid : String

  unfoldable pub issue_access :
      TokenCodec → (now : ℕ) (jti user_id tenant_id : String) → List String → ℕ → IssuedToken
  issue_access c now jti user_id tenant_id roles token_version = record {
    token = jwt.encode c.private_key_pem c.active_kid record {
      typ = "access";
      sub = user_id;
      tenant_id = tenant_id;
      roles = roles;
      family_id = "";
      jti = jti;
      token_version = token_version;
      exp = now + access_ttl;
      iat = now;
    };
    jti = jti;
    expires_at = now + access_ttl;
  }

  abbrev pub refresh_payload : (now : ℕ) (jti user_id tenant_id family_id : String) → ℕ → Payload
  refresh_payload now jti user_id tenant_id family_id token_version = record {
    typ = "refresh";
    sub = user_id;
    tenant_id = tenant_id;
    roles = [];
    family_id = family_id;
    jti = jti;
    token_version = token_version;
    exp = now + refresh_ttl;
    iat = now;
  }

  unfoldable pub issue_refresh :
      TokenCodec → (now : ℕ) (jti user_id tenant_id family_id : String) → ℕ → IssuedToken
  issue_refresh c now jti user_id tenant_id family_id token_version = record {
    token =
        jwt.encode c.private_key_pem c.active_kid
          (refresh_payload now jti user_id tenant_id family_id token_version);
    jti = jti;
    expires_at = now + refresh_ttl;
  }

  of_typ : String → Decoded → Checked Payload
  of_typ expected_typ (payload p) = if p.typ == expected_typ then ok p else raised token_invalid
  of_typ expected_typ expired = raised token_expired
  of_typ expected_typ broken = raised token_invalid

  with_key : ℕ → String → String → Option String → Checked Payload
  with_key now token expected_typ none = raised token_invalid
  with_key now token expected_typ (some public_key) =
      of_typ expected_typ (jwt.decode token public_key clock_skew_leeway now)

  -- `_decode`.
  unfoldable pub decode_typ : TokenCodec → ℕ → String → String → Checked Payload
  unfolding with_key of_typ
  decode_typ c now token expected_typ = elim (jwt.header_kid token) [
    | none ↦ raised token_invalid
    | some kid ↦ with_key now token expected_typ (public_key_of c.public_keys kid)
  ]

  unfoldable pub decode : TokenCodec → ℕ → String → Checked AccessClaims
  unfolding decode_typ
  decode c now token = elim (decode_typ c now token "access") [
    | raised e ↦ raised e
    | ok p ↦ ok record {
      sub = p.sub;
      tenant_id = p.tenant_id;
      roles = p.roles;
      jti = p.jti;
      token_version = p.token_version;
      expires_at = p.exp;
    }
  ]

  unfoldable pub decode_refresh : TokenCodec → ℕ → String → Checked RefreshClaims
  unfolding decode_typ
  decode_refresh c now token = elim (decode_typ c now token "refresh") [
    | raised e ↦ raised e
    | ok p ↦ ok record {
      sub = p.sub;
      tenant_id = p.tenant_id;
      family_id = p.family_id;
      jti = p.jti;
      token_version = p.token_version;
      expires_at = p.exp;
    }
  ]

  -- With the active key among the public ones and paired with the private one, a refresh token whose
  -- payload serialises
  -- decodes to its claims until its expiry and the leeway, is expired from then on, and is never
  -- accepted as an access token, at a moment at most the leeway before it was issued or later.
  pub decode_refresh-issue_refresh :
      (c : TokenCodec) (public_key : String) (issued now : ℕ) (jti user tenant family : String)
      (version : ℕ)
      → public_key_of c.public_keys c.active_kid ≡ some public_key
      → jwt.Pair c.private_key_pem public_key
      → jwt.Serialises (refresh_payload issued jti user tenant family version)
      → issued ≤ now + clock_skew_leeway
      → let token = (issue_refresh c issued jti user tenant family version).token in
        (decode_refresh c now token ≡ (
          if ltb now (issued + refresh_ttl + clock_skew_leeway)
          then ok record {
            sub = user;
            tenant_id = tenant;
            family_id = family;
            jti = jti;
            token_version = version;
            expires_at = issued + refresh_ttl;
          }
          else raised token_expired))
        × (decode c now token ≡ (
            if ltb now (issued + refresh_ttl + clock_skew_leeway)
            then raised token_invalid
            else raised token_expired))
  unfolding decode_refresh decode issue_refresh
  decode_refresh-issue_refresh c public_key issued now jti user tenant family version known pair
        serialises past =
      ground (
        arith,
        known,
        jwt.header_kid-encode c.private_key_pem c.active_kid
            (refresh_payload issued jti user tenant family version),
        jwt.decode-encode c.private_key_pem public_key c.active_kid
            (refresh_payload issued jti user tenant family version) clock_skew_leeway now pair
            serialises past,
      )
