-- ===== src/Auth/Handlers/Rotation.antt =====
-- Refresh-token rotation (`RefreshTokenHandler` of backend/auth/auth.go).
use seagles.Common.{
  ℕ, ◌+◌, ◌<◌, ◌≡◌, refl, sym, ◌∙◌, ◌≢◌, ◌⊎◌, inl, inr, Bool, false, some, ◌++◌, arith, ◌==◌,
  nat_eq, Bool-cases, Option-cases, All,
}
use seagles.Text.{Text, text_eq, text_beq_iff}
use seagles.Text.Cut.{cut-append}
use seagles.Auth.{User}
use seagles.Auth.Tokens.{
  Codec, IsCodec, Claims, ok, dot, generate_access_token, validate_access_token, check_claims,
}
use seagles.Auth.Tokens.RoundTrip.{generated_claims}
use seagles.Auth.Middleware.Gate.{Result-cases}
use seagles.Auth.Sessions.{
  UserRow, Db, Lookup, found, no_session, bad_format, query_failed, refresh_token_ttl,
  store_refresh_token, validate_refresh_token, revoke_refresh_token_by_value, refresh_token_id,
  find_session, active_user,
}
use seagles.Auth.Sessions.Revoke.{
  find_session-revoke_hash, find_session-revoke_hash_ne, find_session-append, find_session_of_new,
  active_user_found,
}
use seagles.Auth.Handlers.{
  Passwords, refreshed, Faults, session_user, rotate, refresh_token_handler,
}
use seagles.Blacklist.{TokenBlacklist}

Lookup-cases :
    (l : Lookup)
    → ((u : UserRow) × (l ≡ found u)) ⊎ (l ≡ bad_format) ⊎ (l ≡ no_session) ⊎ (l ≡ query_failed)
Lookup-cases (found u) = inl (u, refl)
Lookup-cases bad_format = inr (inl refl)
Lookup-cases no_session = inr (inr (inl refl))
Lookup-cases query_failed = inr (inr (inr refl))

stored_session :
    (hash : Text → Text) (fault : Bool) (rid : Text) (expires_at later : ℕ) (db db1 : Db)
    (u : UserRow)
    → store_refresh_token hash fault u.id rid expires_at db ≡ some db1
    → active_user u.id db.users ≡ some u
    → later < expires_at
    → (find_session (hash rid) later db1.users db1.refresh_tokens ≡ some u)
unfolding store_refresh_token
stored_session hash fault rid expires_at later db db1 u s a l = ground (
  arith,
  s,
  a,
  l,
  text_beq_iff (hash rid) (hash rid),
  find_session_of_new (hash rid) later db.users db.refresh_tokens,
  find_session-append (hash rid) later db.users db.refresh_tokens (record {
    user_id = u.id;
    token_hash = hash rid;
    expires_at = expires_at;
    is_revoked = false;
  }),
)

session_active :
    (hash : Text → Text) (fault : Bool) (token : Text) (now : ℕ) (db : Db) (u : UserRow)
    → validate_refresh_token hash fault token now db ≡ found u
    → active_user u.id db.users ≡ some u
unfolding validate_refresh_token
session_active hash fault token now db u h = elim (Option-cases (refresh_token_id token)) [
  | inl e ↦ absurd (ground (arith, h, e))
  | inr (id, e) ↦ elim (Bool-cases fault) [
    | inl g ↦ absurd (ground (arith, h, e, g))
    | inr g ↦ elim (Option-cases (find_session (hash id) now db.users db.refresh_tokens)) [
      | inl k ↦ absurd (ground (arith, h, e, g, k))
      | inr (v, k) ↦
          ground (arith, h, e, g, k, active_user_found (hash id) now db.users db.refresh_tokens v k)
    ]
  ]
]

revoked_session :
    (hash : Text → Text) (fault : Bool) (token rid : Text) (later : ℕ) (db : Db)
    → ((id : Text) → refresh_token_id token ≡ some id → hash id ≢ hash rid)
    → let db' = revoke_refresh_token_by_value hash fault token db in
      find_session (hash rid) later db'.users db'.refresh_tokens
      ≡ find_session (hash rid) later db.users db.refresh_tokens
unfolding revoke_refresh_token_by_value
revoked_session hash fault token rid later db n = elim (Option-cases (refresh_token_id token)) [
  | inl e ↦ ground (arith, e)
  | inr (id, e) ↦ ground (
    arith,
    e,
    find_session-revoke_hash_ne (hash id) (hash rid) later db.users db.refresh_tokens (n id e),
  )
]

module _ (c : Codec) (hash : Text → Text) (pw : Passwords) (f : Faults) (token jti rid : Text)
    (now : ℕ) (db db' : Db) (access fresh : Text)
    (answer : refresh_token_handler c hash pw (some token) f jti rid now db
      ≡ (db', refreshed access fresh)) where
  -- What a successful refresh went through.
  record Refreshed : Type 0 where
    row : UserRow
    claims : Claims
    stored : Db
    validated : validate_refresh_token hash f.query token now db ≡ found row
    generated : generate_access_token c (session_user row) jti now ≡ ok (access, claims)
    inserted :
        store_refresh_token hash f.store row.id rid (now + refresh_token_ttl) db ≡ some stored
    final : db' ≡ revoke_refresh_token_by_value hash f.revoke token stored
    fresh_eq : fresh ≡ rid ++ (dot ++ row.id)

  inversion : Refreshed
  unfolding refresh_token_handler rotate
  inversion = elim (Lookup-cases (validate_refresh_token hash f.query token now db)) [
    | inr n ↦ absurd (ground (arith, answer, n))
    | inl (u, e) ↦ elim (Result-cases (generate_access_token c (session_user u) jti now)) [
      | inr (x, g) ↦ absurd (ground (arith, answer, e, g))
      | inl ((a, k), g) ↦
          elim (Option-cases
            (store_refresh_token hash f.store u.id rid (now + refresh_token_ttl) db)) [
              | inl s ↦ absurd (ground (arith, answer, e, g, s))
              | inr (db1, s) ↦ record {
                row = u;
                claims = k;
                stored = db1;
                validated = e;
                generated = ground (arith, answer, e, g, s);
                inserted = s;
                final = ground (arith, answer, e, g, s);
                fresh_eq = ground (arith, answer, e, g, s);
              }
            ]
    ]
  ]

  -- The refresh token that was used is not accepted again, at any time, if the statement that
  -- revokes it did not fail.
  pub refresh_spends_token :
      (later : ℕ)
      → f.revoke ≡ false
      → (u : UserRow) → validate_refresh_token hash false token later db' ≢ found u
  unfolding validate_refresh_token revoke_refresh_token_by_value
  refresh_spends_token later r u = elim (Option-cases (refresh_token_id token)) [
    | inl e ↦ λ h. ground (arith, e, h)
    | inr (id, e) ↦ λ h. ground (
      arith,
      e,
      h,
      r,
      inversion.final,
      find_session-revoke_hash (hash id) later inversion.stored.users
          inversion.stored.refresh_tokens,
    )
  ]

  -- The access token that a refresh gives never carries the flag that the password must be changed,
  -- whatever the user's row says: if it is accepted at all, it is with the flag clear.
  pub refresh_drops_flag :
      IsCodec c
      → (later : ℕ) (b : TokenBlacklist) (u : User) → validate_access_token c access later b ≡ ok u
      → u.must_change_password ≡ false
  unfolding validate_access_token check_claims
  refresh_drops_flag laws later b u h = ground (
    arith,
    h,
    generated_claims c laws (session_user inversion.row) jti now later access inversion.claims
        inversion.generated,
  )

  fresh_found :
      (later : ℕ)
      → All (λ b. (b == b'.') ≡ false) rid
      → ((id : Text) → refresh_token_id token ≡ some id → hash id ≢ hash rid)
      → later < now + refresh_token_ttl
      → validate_refresh_token hash false fresh later db' ≡ found inversion.row
  unfolding validate_refresh_token refresh_token_id
  fresh_found later d n l = ground (
    arith,
    inversion.fresh_eq,
    cut-append b'.' rid inversion.row.id d,
    inversion.final,
    revoked_session hash f.revoke token rid later inversion.stored n,
    stored_session hash f.store rid (now + refresh_token_ttl) later db inversion.stored
        inversion.row inversion.inserted
        (session_active hash f.query token now db inversion.row inversion.validated) l,
  )

  -- The refresh token that a refresh gives is accepted until its lifetime ends, for the user of the
  -- one that was used, if the random identifier holds no dot and has another hash than the old one.
  pub refresh_gives_session :
      (later : ℕ)
      → All (λ b. (b == b'.') ≡ false) rid
      → ((id : Text) → refresh_token_id token ≡ some id → hash id ≢ hash rid)
      → later < now + refresh_token_ttl
      → validate_refresh_token hash false fresh later db'
        ≡ validate_refresh_token hash f.query token now db
  refresh_gives_session later d n l = fresh_found later d n l ∙ sym inversion.validated
