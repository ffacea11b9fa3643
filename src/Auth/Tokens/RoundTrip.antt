-- ===== src/Auth/Tokens/RoundTrip.antt =====
-- An access token that the server issued is accepted by it (backend/auth/tokens.go).
use seagles.Common.{
  ℕ, ◌+◌, ◌≤◌, ◌≡◌, sym, ◌≢◌, ◌∙◌, ap, false, [], ◌++◌, arith, inl, inr, Option-cases,
}
use mathlib.Core.List.{append_assoc}
use seagles.Clock.{from_unix, unix}
use seagles.Text.{Text, text_eq, text_beq_iff}
use seagles.Text.Cut.{cut-append}
use seagles.Auth.{User}
use seagles.Auth.Tokens.{
  Claims, Codec, IsCodec, ok, access_token_ttl, header, dot, sign_rs256, split_token, check_claims,
  verify_rs256, access_claims, generate_access_token, validate_access_token,
}
use seagles.Blacklist.{TokenBlacklist, is_blacklisted}

module _ (c : Codec) (laws : IsCodec c) where
  split_token-join :
      (head payload sig : Text)
      → split_token c ((c.encode head ++ (dot ++ c.encode payload)) ++ (dot ++ c.encode sig))
        ≡ ok (c.encode head, c.encode payload, c.encode sig)
  unfolding split_token
  split_token-join head payload sig = rw (
    append_assoc (c.encode head) (dot ++ c.encode payload) (dot ++ c.encode sig),
    cut-append b'.' (c.encode head) (c.encode payload ++ (dot ++ c.encode sig))
        (laws.encode_no_dot head),
    cut-append b'.' (c.encode payload) (c.encode sig) (laws.encode_no_dot payload),
  )

  -- Verification gives back the claims that were signed, up to the checks on them.
  pub verify-sign_rs256 :
      (k : Claims) (token : Text) (now : ℕ)
      → sign_rs256 c k ≡ ok token
      → verify_rs256 c token now ≡ check_claims c now k
  unfolding sign_rs256 verify_rs256
  verify-sign_rs256 k token now h = elim (Option-cases (c.marshal k)) [
    | inl e ↦ cc (h, e)
    | inr (payload, e) ↦
        elim (Option-cases (c.sign (c.encode header ++ (dot ++ c.encode payload)))) [
          | inl f ↦ ground (arith, h, e, f)
          | inr (sig, f) ↦ ground (
            arith,
            h,
            e,
            f,
            split_token-join header payload sig,
            laws.decode-encode sig,
            laws.verify-sign (c.encode header ++ (dot ++ c.encode payload)) sig f,
            laws.decode-encode payload,
            laws.unmarshal-marshal k payload e,
          )
        ]
  ]

  generated_signed :
      (user : User) (token_id : Text) (now : ℕ) (token : Text) (k : Claims)
      → generate_access_token c user token_id now ≡ ok (token, k)
      → (sign_rs256 c (access_claims c user token_id now) ≡ ok token)
        × (k ≡ access_claims c user token_id now)
  unfolding generate_access_token
  generated_signed user token_id now token k h = ground arith

  pub generated_claims :
      (user : User) (token_id : Text) (now later : ℕ) (token : Text) (k : Claims)
      → generate_access_token c user token_id now ≡ ok (token, k)
      → (verify_rs256 c token later ≡ check_claims c later k)
        × (k ≡ access_claims c user token_id now)
  generated_claims user token_id now later token k h =
      let (s, e) = generated_signed user token_id now token k h in
      (
        verify-sign_rs256 (access_claims c user token_id now) token later s
            ∙ ap (check_claims c later) (sym e),
        e,
      )

  -- A token with an identifier, issued to a user with an identifier, is accepted up to its expiry
  -- time, as long as it is not revoked, and gives back the user's identifier, name, role and
  -- password-change flag and the token's own identifier. The e-mail address does not travel in it.
  pub validate-generate :
      (user : User) (token_id : Text) (now later : ℕ) (token : Text) (k : Claims)
      (b : TokenBlacklist)
      → user.id ≢ []
      → token_id ≢ []
      → generate_access_token c user token_id now ≡ ok (token, k)
      → later ≤ from_unix (unix (now + access_token_ttl))
      → is_blacklisted token_id b ≡ false
      → validate_access_token c token later b ≡ ok (record user { email = []; token_id = token_id })
  unfolding validate_access_token check_claims
  validate-generate user token_id now later token k b u t h l f =
      let (v, e) = generated_claims user token_id now later token k h in
      ground (arith, v, e, f, l, text_beq_iff user.id [], text_beq_iff token_id [])
