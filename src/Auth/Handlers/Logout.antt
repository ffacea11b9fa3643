-- ===== src/Auth/Handlers/Logout.antt =====
-- What a logout ends (`LogoutHandler` of backend/auth/auth.go).
use seagles.Common.{ℕ, ◌≡◌, ◌≢◌, inl, inr, false, some, [], arith, Option-cases}
use seagles.Text.{Text, text_eq, text_beq_iff}
use seagles.Auth.{User}
use seagles.Auth.Tokens.{
  Codec, IsCodec, Claims, ok, generate_access_token, verify_rs256, check_claims,
}
use seagles.Auth.Tokens.RoundTrip.{generated_claims}
use seagles.Auth.Middleware.{bearer_token}
use seagles.Auth.Sessions.{
  UserRow, Db, found, validate_refresh_token, find_session, refresh_token_id, revoke_all,
  revoke_all_refresh_tokens,
}
use seagles.Auth.Sessions.Revoke.{find_session-revoke_all, find_session-revoke_all_ne}
use seagles.Auth.Handlers.{Passwords, done, Faults, logout_handler}
use seagles.Blacklist.{TokenBlacklist, add}

pub revoked_user_session :
    (hash : Text → Text) (uid t : Text) (later : ℕ) (db : Db) (u : UserRow)
    → validate_refresh_token hash false t later (revoke_all_refresh_tokens false uid db) ≡ found u
    → u.id ≢ uid
unfolding validate_refresh_token revoke_all_refresh_tokens
revoked_user_session hash uid t later db u h = elim (Option-cases (refresh_token_id t)) [
  | inl e ↦ absurd (ground (arith, h, e))
  | inr (id, e) ↦
      elim (Option-cases
        (find_session (hash id) later db.users (revoke_all uid db.refresh_tokens))) [
          | inl k ↦ absurd (ground (arith, h, e, k))
          | inr (v, k) ↦ λ q.
              find_session-revoke_all uid (hash id) later db.users db.refresh_tokens v k
                (ground (arith, h, e, k, q))
        ]
]

pub other_user_session :
    (hash : Text → Text) (uid t : Text) (later : ℕ) (db : Db) (u : UserRow)
    → validate_refresh_token hash false t later db ≡ found u
    → u.id ≢ uid
    → validate_refresh_token hash false t later (revoke_all_refresh_tokens false uid db) ≡ found u
unfolding validate_refresh_token revoke_all_refresh_tokens
other_user_session hash uid t later db u h n = elim (Option-cases (refresh_token_id t)) [
  | inl e ↦ absurd (ground (arith, h, e))
  | inr (id, e) ↦ elim (Option-cases (find_session (hash id) later db.users db.refresh_tokens)) [
    | inl k ↦ absurd (ground (arith, h, e, k))
    | inr (v, k) ↦ ground (
      arith,
      h,
      e,
      k,
      find_session-revoke_all_ne uid (hash id) later db.users db.refresh_tokens u
          (ground (arith, h, e, k)) n,
    )
  ]
]

module _ (c : Codec) (laws : IsCodec c) (hash : Text → Text) (pw : Passwords) (f : Faults)
    (authorization token jti : Text) (issuer : User) (k claims : Claims) (issued now : ℕ) (db : Db)
    (b : TokenBlacklist) (no_fault : f.revoke ≡ false)
    (header : bearer_token authorization ≡ some token)
    (generated : generate_access_token c issuer jti issued ≡ ok (token, k))
    (verified : verify_rs256 c token now ≡ ok claims) (has_id : issuer.id ≢ [])
    (nonempty : authorization ≢ []) where
  claims_jti : claims.jti ≡ jti
  unfolding check_claims
  claims_jti =
      ground (arith, verified, generated_claims c laws issuer jti issued now token k generated)

  logout_effect :
      logout_handler c hash pw authorization issuer.id f now db b
      ≡ (revoke_all_refresh_tokens false issuer.id db, add jti now b, done)
  unfolding logout_handler
  logout_effect = ground (
    arith,
    no_fault,
    header,
    verified,
    claims_jti,
    text_beq_iff issuer.id [],
    text_beq_iff authorization [],
  )

  -- After a logout with an access token that was issued to the user and is still accepted, in a
  -- well-formed header, none of the user's refresh tokens is accepted any more, at any time, if
  -- the statement on the database did not fail.
  pub logout_refuses_refresh :
      (later : ℕ) (t : Text) (u : UserRow)
      → validate_refresh_token hash false t later
          (logout_handler c hash pw authorization issuer.id f now db b).0
        ≡ found u
      → u.id ≢ issuer.id
  logout_refuses_refresh later t u =
      rw logout_effect (revoked_user_session hash issuer.id t later db u)

  -- Such a logout leaves the sessions of other users: a refresh token of another user that was
  -- accepted still is.
  pub logout_keeps_others :
      (later : ℕ) (t : Text) (u : UserRow)
      → validate_refresh_token hash false t later db ≡ found u
      → u.id ≢ issuer.id
      → validate_refresh_token hash false t later
          (logout_handler c hash pw authorization issuer.id f now db b).0
        ≡ found u
  logout_keeps_others later t u h n =
      rw logout_effect (other_user_session hash issuer.id t later db u h n)
