-- ===== src/Auth/Handlers/Password.antt =====
-- Login and password change (`LoginHandler` and `ChangePasswordHandler` of backend/auth/auth.go).
use seagles.Common.{
  ℕ, ◌≡◌, ◌≢◌, ◌⊎◌, ◌∙◌, sym, ap, ◌==◌, ◌&&◌, inl, inr, true, false, Option, none, some, List, [],
  ◌∷◌, ◌++◌, arith, Bool-cases, Option-cases,
}
use mathlib.Core.Path.{subst}
use mathlib.Core.List.{Mem, mem-cons_self, mem-cons_of_mem}
use seagles.Text.{Text, text_eq, text_beq_iff}
use seagles.Auth.{User}
use seagles.Auth.Tokens.{Codec, dot}
use seagles.Auth.Middleware.{Value, user, user_pointer, text}
use seagles.Auth.Sessions.{UserRow, Db, found, validate_refresh_token, revoke_all_refresh_tokens}
use seagles.Auth.Handlers.{
  Passwords, logged_in, done, refused, Faults, LoginRequest, login_user, active_by_name, user_by_id,
  set_password, open_session, login_handler, change_password_handler,
}
use seagles.Auth.Handlers.Logout.{revoked_user_session}

user_by_id-set_password :
    (uid h : Text) (us : List UserRow) (u : UserRow)
    → user_by_id uid us ≡ some u
    → user_by_id uid (set_password uid h us)
      ≡ some (record u { password_hash = h; must_change_password = false })
unfolding user_by_id set_password
user_by_id-set_password uid h [] u e = cc
user_by_id-set_password uid h (v ∷ us) u e =
    ground (arith, e, text_beq_iff v.id uid, user_by_id-set_password uid h us u)

-- The account of a name is an active one of the table that has this name.
active_by_name-Mem :
    (name : Text) (us : List UserRow) (u : UserRow)
    → active_by_name name us ≡ some u
    → Mem u us × (u.username ≡ name) × (u.is_active ≡ true)
unfolding active_by_name
active_by_name-Mem name [] u e = absurd (ground (arith, e))
active_by_name-Mem name (v ∷ us) u e = elim (Bool-cases (v.username == name && v.is_active)) [
  | inl h ↦
      let same : v ≡ u = ground (arith, e, h) in
      (
        subst (λ x. Mem x (v ∷ us)) same mem-cons_self,
        ap (λ (x : UserRow). x.username) (sym same)
            ∙ (text_beq_iff v.username name).0 (ground (arith, h)),
        ap (λ (x : UserRow). x.is_active) (sym same) ∙ ground (arith, h),
      )
  | inr h ↦
      let (m, n, a) = active_by_name-Mem name us u (ground (arith, e, h)) in
      (mem-cons_of_mem _ m, n, a)
]

module _ (c : Codec) (hash : Text → Text) (pw : Passwords) (f : Faults) where
  -- A login that is answered with tokens is one of an account of the table that has the name of the
  -- request, is active and has the password of the request; the answer names that account, its
  -- flag included, and the refresh token carries its id.
  pub login_sound :
      (req : LoginRequest) (jti rid : Text) (now : ℕ) (db db' : Db) (token refresh : Text)
      (account : User)
      → login_handler c hash pw (some req) f jti rid now db ≡ (db', logged_in token refresh account)
      → (u : UserRow) × Mem u db.users
        × (u.username ≡ req.username)
        × (u.is_active ≡ true)
        × (pw.check req.password u.password_hash ≡ true)
        × (account ≡ login_user u)
        × (refresh ≡ rid ++ (dot ++ u.id))
  unfolding login_handler open_session
  login_sound req jti rid now db db' token refresh account h = elim (Bool-cases f.query) [
    | inl q ↦ absurd (ground (arith, h, q))
    | inr q ↦ elim (Option-cases (active_by_name req.username db.users)) [
      | inl a ↦ absurd (ground (arith, h, q, a))
      | inr (u, a) ↦ elim (Bool-cases (pw.check req.password u.password_hash)) [
        | inr k ↦ absurd (ground (arith, h, q, a, k))
        | inl k ↦
            let (m, n, v) = active_by_name-Mem req.username db.users u a in
            (u, m, n, v, k, ground (arith, h, q, a, k), ground (arith, h, q, a, k))
      ]
    ]
  ]

  -- If the query does not fail, an unknown or inactive name and a wrong password are answered
  -- alike, with 401, and neither changes the database.
  pub login_refusal_uniform :
      (req : LoginRequest) (jti rid : Text) (now : ℕ) (db : Db)
      → f.query ≡ false
      → (active_by_name req.username db.users ≡ none)
        ⊎ ((u : UserRow) × (active_by_name req.username db.users ≡ some u)
            × (pw.check req.password u.password_hash ≡ false))
      → login_handler c hash pw (some req) f jti rid now db ≡ (db, refused 401)
  unfolding login_handler
  login_refusal_uniform req jti rid now db q h = ground (arith, q, h)

  change_password_cases :
      (uid current new : Text) (db db' : Db)
      → change_password_handler c hash pw (some (text uid)) (some (current, new)) f db ≡ (db', done)
      → (u : UserRow) × (h : Text) × (user_by_id uid db.users ≡ some u)
        × (pw.check current u.password_hash ≡ true)
        × (pw.hash_password new ≡ some h)
        × (db'
            ≡ revoke_all_refresh_tokens f.revoke uid
                (record db { users = set_password uid h db.users }))
  unfolding change_password_handler
  change_password_cases uid current new db db' a = elim (Bool-cases f.query) [
    | inl q ↦ absurd (ground (arith, a, q))
    | inr q ↦ elim (Option-cases (user_by_id uid db.users)) [
      | inl e ↦ absurd (ground (arith, a, q, e))
      | inr (u, e) ↦ elim (Bool-cases (pw.check current u.password_hash)) [
        | inr k ↦ absurd (ground (arith, a, q, e, k))
        | inl k ↦ elim (Option-cases (pw.hash_password new)) [
          | inl g ↦ absurd (ground (arith, a, q, e, k, g))
          | inr (h, g) ↦ (u, h, e, k, g, ground (arith, a, q, e, k, g))
        ]
      ]
    ]
  ]

  -- A password change that is done was asked for with the current password; afterwards the account
  -- has the hash of the new one, and the flag that the password must be changed is clear.
  pub change_password_done :
      (uid current new : Text) (db db' : Db)
      → change_password_handler c hash pw (some (text uid)) (some (current, new)) f db ≡ (db', done)
      → (u : UserRow) × (h : Text) × (user_by_id uid db.users ≡ some u)
        × (pw.check current u.password_hash ≡ true)
        × (pw.hash_password new ≡ some h)
        × (user_by_id uid db'.users
            ≡ some (record u { password_hash = h; must_change_password = false }))
  unfolding revoke_all_refresh_tokens
  change_password_done uid current new db db' a =
      let (u, h, e, k, g, q) = change_password_cases uid current new db db' a in
      (u, h, e, k, g, ground (arith, q, user_by_id-set_password uid h db.users u e))

  -- After a password change that is done no refresh token of the account is accepted, if the
  -- statement that revokes them did not fail.
  pub change_password_ends_sessions :
      (uid current new : Text) (db db' : Db) (t : Text) (later : ℕ) (v : UserRow)
      → f.revoke ≡ false
      → change_password_handler c hash pw (some (text uid)) (some (current, new)) f db ≡ (db', done)
      → validate_refresh_token hash false t later db' ≡ found v
      → v.id ≢ uid
  change_password_ends_sessions uid current new db db' t later v r a s =
      let (u, h, e, k, g, q) = change_password_cases uid current new db db' a in
      revoked_user_session hash uid t later (record db { users = set_password uid h db.users }) v
        (ground (arith, q, r, s))

  -- A password change that is refused leaves the database as it was.
  pub change_password_refused :
      (id : Option Value) (req : Option (Text × Text)) (db db' : Db) (status : ℕ)
      → change_password_handler c hash pw id req f db ≡ (db', refused status)
      → db' ≡ db
  unfolding change_password_handler
  change_password_refused none req db db' status h = ground (arith, h)
  change_password_refused (some (user u)) req db db' status h = ground (arith, h)
  change_password_refused (some (user_pointer u)) req db db' status h = ground (arith, h)
  change_password_refused (some (text uid)) none db db' status h = ground (arith, h)
  change_password_refused (some (text uid)) (some (current, new)) db db' status h =
      ground (arith, h)
