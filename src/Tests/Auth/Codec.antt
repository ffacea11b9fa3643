-- ===== src/Tests/Auth/Codec.antt =====
-- A codec that can be run: texts of numbers, with each field's length before it, and an encoding
-- that leaves out the dot.
use seagles.Common.{
  ℕ, ◌+◌, ◌-◌, ◌*◌, ◌≡◌, refl, true, false, Option, none, some, [], ◌∷◌, ◌++◌, arith, ltb, ◌==◌,
  nat_eq, if◌then◌else◌, map, length, take, drop, All,
}
use seagles.Text.{Text, codes, text_beq, text_beq_iff}
use seagles.Clock.{epoch, hour}
use seagles.Auth.{User}
use seagles.Auth.Tokens.{
  Claims, Codec, IsCodec, ok, access_claims, header, dot, generate_access_token, sign_rs256,
}

abbrev pub put : Text → Text → Text
put s rest = length s ∷ (s ++ rest)

abbrev grab : Text → Option (Text × Text)
grab [] = none
grab (n ∷ rest) = some (take n rest, drop n rest)

take-append : (s rest : Text) → take (length s) (s ++ rest) ≡ s
take-append [] rest = refl
take-append (x ∷ s) rest = ground (arith, take-append s rest)

drop-append : (s rest : Text) → drop (length s) (s ++ rest) ≡ rest
drop-append [] rest = refl
drop-append (x ∷ s) rest = drop-append s rest

grab-put : (s rest : Text) → grab (put s rest) ≡ some (s, rest)
grab-put s rest = ground (arith, take-append s rest, drop-append s rest)

abbrev pub pack : Claims → Text
pack k = put k.sub (
    put k.name (
      put k.role (
        put k.jti
          (put k.token_type (k.iat ∷ k.exp ∷ (if k.must_change_password then 1 else 0) ∷ [])))))

abbrev with_numbers : Text → Text → Text → Text → Text → Text → Option Claims
with_numbers sub name role jti typ (iat ∷ exp ∷ flag ∷ []) = some (record {
  sub = sub;
  name = name;
  role = role;
  jti = jti;
  token_type = typ;
  iat = iat;
  exp = exp;
  must_change_password = flag == 1;
})
with_numbers sub name role jti typ _ = none

infixl 5 ◌>>=◌
abbrev ◌>>=◌ {ℓ κ} : {A : Type ℓ} {B : Type κ} → Option A → (A → Option B) → Option B
none >>= f = none
some a >>= f = f a

unfoldable pub unpack : Text → Option Claims
unpack t = do
  (sub, t1) ← grab t
  (name, t2) ← grab t1
  (role, t3) ← grab t2
  (jti, t4) ← grab t3
  (typ, t5) ← grab t4
  with_numbers sub name role jti typ t5

numbers :
    (k : Claims)
    → with_numbers k.sub k.name k.role k.jti k.token_type
        (k.iat ∷ k.exp ∷ (if k.must_change_password then 1 else 0) ∷ [])
      ≡ some k
numbers k = ground arith

unpack-pack : (k : Claims) → unpack (pack k) ≡ some k
unfolding unpack
unpack-pack k = simp (take-append, drop-append) (numbers k)

abbrev skip_dot : ℕ → ℕ
skip_dot b = if ltb b 46 then b else b + 1

abbrev back : ℕ → ℕ
back b = if ltb b 46 then b else b - 1

back-skip_dot : (t : Text) → map back (map skip_dot t) ≡ t
back-skip_dot [] = refl
back-skip_dot (b ∷ t) = ground (arith, back-skip_dot t)

skip_dot_no_dot : (t : Text) → All (λ b. (b == b'.') ≡ false) (map skip_dot t)
skip_dot_no_dot [] = tt
skip_dot_no_dot (b ∷ t) = (ground arith, skip_dot_no_dot t)

-- A signature is a copy of the text.
abbrev pub codec : Codec
codec = record {
  sign = some;
  verify = text_beq;
  encode = map skip_dot;
  decode = λ t. some (map back t);
  marshal = λ k. some (pack k);
  unmarshal = unpack;
}

pub codec-IsCodec : IsCodec codec
codec-IsCodec = record {
  verify-sign = λ t s h. ground (arith, h, text_beq_iff t s);
  decode-encode = λ t. ground (arith, back-skip_dot t);
  encode_no_dot = skip_dot_no_dot;
  unmarshal-marshal = λ k t h. ground (arith, h, unpack-pack k);
}

-- A user, and the token that the codec makes for her.
abbrev pub ann : User
ann = record {
  id = codes "u1";
  username = codes "ann";
  email = codes "ann@x";
  role = codes "operator";
  token_id = [];
  must_change_password = true;
}

abbrev pub jti : Text
jti = codes "j1"

abbrev pub issued : ℕ
issued = epoch + 1000 * hour

abbrev pub claims : Claims
claims = access_claims codec ann jti issued

abbrev pub signing_input : Claims → Text
signing_input k = codec.encode header ++ (dot ++ codec.encode (pack k))

abbrev pub token_of : Claims → Text
token_of k = signing_input k ++ (dot ++ codec.encode (signing_input k))

abbrev pub token : Text
token = token_of claims

pub token_made : generate_access_token codec ann jti issued ≡ ok (token, claims)
unfolding generate_access_token sign_rs256
token_made = refl
