-- ===== src/Auth/Tokens.antt =====
-- backend/auth/tokens.go: access tokens. RSA, SHA-256, base64 and JSON are the operations of a
-- `Codec`; the key pair is one that `LoadOrGenerateKeys` has set.
pub mod RoundTrip
pub mod Revocation
use seagles.Common.{
  ℕ, ◌+◌, ◌*◌, ◌≡◌, Bool, true, false, not, Option, none, some, List, [], ◌∷◌, ◌++◌, ltb, ◌==◌,
  nat_eq, if◌then◌else◌, All,
}
use seagles.Clock.{minute, unix, from_unix}
use seagles.Text.{Text, codes, text_eq, cut}
use seagles.Auth.{User}
use seagles.Blacklist.{TokenBlacklist, is_blacklisted}

pub record Claims : Type 0 where
  pub sub : Text
  pub name : Text
  pub role : Text
  pub jti : Text
  pub token_type : Text
  pub iat : ℕ
  pub exp : ℕ
  pub must_change_password : Bool

-- What the packages crypto/rsa, crypto/sha256, encoding/base64 and encoding/json do. `sign` and
-- `verify` are those of the key pair, over the hash of their text.
pub record Codec : Type 0 where
  pub sign : Text → Option Text
  pub verify : Text → Text → Bool
  pub encode : Text → Text
  pub decode : Text → Option Text
  pub marshal : Claims → Option Text
  pub unmarshal : Text → Option Claims

-- Their documented behaviour.
pub record IsCodec (c : Codec) : Type 0 where
  pub verify-sign : (t s : Text) → c.sign t ≡ some s → c.verify t s ≡ true
  pub decode-encode : (t : Text) → c.decode (c.encode t) ≡ some t
  pub encode_no_dot : (t : Text) → All (λ b. (b == b'.') ≡ false) (c.encode t)
  pub unmarshal-marshal : (k : Claims) (t : Text) → c.marshal k ≡ some t → c.unmarshal t ≡ some k

pub data TokenError : Type 0 where
  invalid_format invalid_encoding invalid_signature bad_payload : TokenError
  missing_subject missing_jti missing_type expired : TokenError
  not_access revoked : TokenError
  marshal_failed sign_failed : TokenError

pub data Result {ℓ} (A : Type ℓ) : Type ℓ where
  ok : A → Result A
  err : TokenError → Result A

infixl 5 ◌>>=◌ ◌>>◌
abbrev pub ◌>>=◌ {ℓ κ} : {A : Type ℓ} {C : Type κ} → Result A → (A → Result C) → Result C
err e >>= next = err e
ok value >>= next = next value

abbrev pub ◌>>◌ {ℓ} : {A : Type ℓ} → Result (Unit {0}) → Result A → Result A
test >> rest = test >>= λ _. rest

abbrev pub or_err {ℓ} : {A : Type ℓ} → TokenError → Option A → Result A
or_err e none = err e
or_err e (some a) = ok a

abbrev pub reject_if : Bool → TokenError → Result (Unit {0})
reject_if true e = err e
reject_if false e = ok tt

abbrev pub access_token : Text
access_token = codes "access"

abbrev pub access_token_ttl : ℕ
access_token_ttl = 15 * minute

abbrev pub header : Text
header = codes "{\"alg\":\"RS256\",\"typ\":\"JWT\",\"kid\":\"seagles-v1\"}"

abbrev pub dot : Text
dot = b'.' ∷ []

module _ (c : Codec) where
  unfoldable pub sign_rs256 : Claims → Result Text
  sign_rs256 claims = do
    payload ← or_err marshal_failed (c.marshal claims)
    let signing_input = c.encode header ++ (dot ++ c.encode payload)
    sig ← or_err sign_failed (c.sign signing_input)
    ok (signing_input ++ (dot ++ c.encode sig))

  -- `strings.SplitN (tokenStr, ".", 3)`, if it has three parts.
  unfoldable pub split_token : Text → Result (Text × Text × Text)
  split_token token = do
    (head, rest) ← or_err invalid_format (cut b'.' token)
    (payload, sig) ← or_err invalid_format (cut b'.' rest)
    ok (head, payload, sig)

  unfoldable pub check_claims : ℕ → Claims → Result Claims
  check_claims now claims = do
    reject_if (claims.sub == []) missing_subject
    reject_if (claims.jti == []) missing_jti
    reject_if (claims.token_type == []) missing_type
    reject_if (ltb (from_unix claims.exp) now) expired
    ok claims

  unfoldable pub verify_rs256 : Text → ℕ → Result Claims
  verify_rs256 token now = do
    (head, payload, sig64) ← split_token token
    sig ← or_err invalid_encoding (c.decode sig64)
    reject_if (not (c.verify (head ++ (dot ++ payload)) sig)) invalid_signature
    bytes ← or_err invalid_encoding (c.decode payload)
    claims ← or_err bad_payload (c.unmarshal bytes)
    check_claims now claims

  abbrev pub access_claims : User → Text → ℕ → Claims
  access_claims user token_id now = record {
    sub = user.id;
    name = user.username;
    role = user.role;
    jti = token_id;
    token_type = access_token;
    iat = unix now;
    exp = unix (now + access_token_ttl);
    must_change_password = user.must_change_password;
  }

  -- `token_id` is what `generateTokenID` returned.
  unfoldable pub generate_access_token : User → Text → ℕ → Result (Text × Claims)
  generate_access_token user token_id now = do
    token ← sign_rs256 (access_claims user token_id now)
    ok (token, access_claims user token_id now)

  unfoldable pub validate_access_token : Text → ℕ → TokenBlacklist → Result User
  validate_access_token token now blacklist = do
    claims ← verify_rs256 token now
    reject_if (not (claims.token_type == access_token)) not_access
    reject_if (is_blacklisted claims.jti blacklist) revoked
    ok (record {
      id = claims.sub;
      username = claims.name;
      email = [];
      role = claims.role;
      token_id = claims.jti;
      must_change_password = claims.must_change_password;
    })
