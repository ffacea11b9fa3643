-- ===== src/Auth/Tokens/Revocation.antt =====
-- Logging out an access token (backend/auth/tokens.go with backend/cache/blacklist.go).
use seagles.Common.{
  ℕ, ◌+◌, ◌*◌, ◌≤◌, ◌<◌, ◌≡◌, ◌≢◌, false, List, [], ◌∷◌, arith, ◌==◌, inl, inr, ◌⊎◌, All,
}
use seagles.Clock.{hour, epoch}
use seagles.Dict.{IsMap}
use seagles.Text.{Text, text_eq}
use seagles.Auth.{User}
use seagles.Auth.Tokens.{
  Claims, Codec, IsCodec, ok, check_claims, generate_access_token, validate_access_token,
}
use seagles.Auth.Tokens.RoundTrip.{generated_claims}
use seagles.Blacklist.{TokenBlacklist, add}
use seagles.Blacklist.Revoked.{Op, adds, removes, cleans, apply_all, Within, add-stays}

-- The operation runs in the time from `start` to `until`, and does not take `jti` off the list.
abbrev pub Between : Text → ℕ → ℕ → Op → Type 0
Between jti start until (adds j now) = (start ≤ now) × (now ≤ until)
Between jti start until (removes j) = (j == jti) ≡ false
Between jti start until (cleans now) = now ≤ until

widen :
    (jti : Text) (start until later : ℕ) (ops : List Op)
    → until ≤ later
    → All (Between jti start until) ops
    → All (Within jti start later) ops
widen jti start until later [] h a = tt
widen jti start until later (adds j now ∷ ops) h a = (a.0.0, widen jti start until later ops h a.1)
widen jti start until later (removes j ∷ ops) h a = (a.0, widen jti start until later ops h a.1)
widen jti start until later (cleans now ∷ ops) h a =
    (omega (arith, a.0), widen jti start until later ops h a.1)

module _ (c : Codec) (laws : IsCodec c) where
  -- On a blacklist that keeps entries for 24 hours, a token issued at `issued`, after 1970, and
  -- revoked at `start`, not before it was issued, is refused from then on: at any later time,
  -- after any operations on the blacklist up to that time which do not take it off explicitly. It
  -- stays on the list until it has expired.
  pub revoked_forever :
      (user : User) (token_id token : Text) (k : Claims) (issued start now : ℕ) (ops : List Op)
      (b : TokenBlacklist) (u : User)
      → generate_access_token c user token_id issued ≡ ok (token, k)
      → IsMap b.entries
      → b.max_ttl ≡ 24 * hour
      → epoch ≤ issued
      → issued ≤ start
      → All (Between token_id start now) ops
      → validate_access_token c token now (apply_all ops (add token_id start b)) ≢ ok u
  unfolding validate_access_token check_claims
  revoked_forever user token_id token k issued start now ops b u g m t o i a h =
      elim (le_total now (start + b.max_ttl)) [
        | inl early ↦ ground (
          arith,
          generated_claims c laws user token_id issued now token k g,
          add-stays token_id start ops b m (widen token_id start now _ ops early a),
        )
        | inr late ↦ ground (arith, generated_claims c laws user token_id issued now token k g)
      ]
    where
      le_total : (x y : ℕ) → (x ≤ y) ⊎ (y < x)
      le_total x y = omega arith
