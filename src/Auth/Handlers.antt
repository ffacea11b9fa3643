-- ===== src/Auth/Handlers.antt =====
-- The session handlers of backend/auth/auth.go: login, refresh, logout and password change. What gin
-- binds is an argument, `none` where the request does not fit; so are the fresh random identifiers,
-- the clock, bcrypt, and which of the statements on the database fail. The time to expiry in an
-- answer is left out.
pub mod Rotation
pub mod Logout
pub mod Password
use seagles.Common.{
  ℕ, ◌+◌, Bool, true, false, not, Option, none, some, List, [], ◌∷◌, ◌++◌, ltb, ◌==◌, ◌&&◌,
  if◌then◌else◌, map,
}
use seagles.Text.{Text, text_eq}
use seagles.Auth.{User}
use seagles.Auth.Tokens.{Codec, Claims, ok, err, dot, generate_access_token, verify_rs256}
use seagles.Auth.Middleware.{Value, user, user_pointer, text, bearer_token}
use seagles.Auth.Sessions.{
  UserRow, Db, Lookup, found, bad_format, no_session, query_failed, refresh_token_ttl,
  store_refresh_token, validate_refresh_token, revoke_refresh_token_by_value,
  revoke_all_refresh_tokens,
}
use seagles.Blacklist.{TokenBlacklist, add}

-- golang.org/x/crypto/bcrypt.
pub record Passwords : Type 0 where
  pub check : Text → Text → Bool
  pub hash_password : Text → Option Text

pub data Answer : Type 0 where
  logged_in : Text → Text → User → Answer
  refreshed : Text → Text → Answer
  done : Answer
  refused : ℕ → Answer

-- The columns that `validateRefreshToken` reads.
abbrev pub session_user : UserRow → User
session_user u = record {
  id = u.id;
  username = u.username;
  email = u.email;
  role = u.role;
  token_id = [];
  must_change_password = false;
}

abbrev pub login_user : UserRow → User
login_user u = record {
  id = u.id;
  username = u.username;
  email = u.email;
  role = u.role;
  token_id = [];
  must_change_password = u.must_change_password;
}

pub record LoginRequest : Type 0 where
  pub username : Text
  pub password : Text

-- The failures of the statements of one request, in their order.
pub record Faults : Type 0 where
  pub query : Bool
  pub update : Bool
  pub store : Bool
  pub revoke : Bool

unfoldable pub active_by_name : Text → List UserRow → Option UserRow
active_by_name name [] = none
active_by_name name (u ∷ us) =
    if u.username == name && u.is_active then some u else active_by_name name us

unfoldable pub user_by_id : Text → List UserRow → Option UserRow
user_by_id uid [] = none
user_by_id uid (u ∷ us) = if u.id == uid then some u else user_by_id uid us

unfoldable pub touch_login : (fault : Bool) → Text → ℕ → Db → Db
touch_login fault uid now db = if fault then db else record db {
  users = map (λ u. if u.id == uid then record u { last_login = now } else u) db.users;
}

unfoldable pub set_password : Text → Text → List UserRow → List UserRow
set_password uid h =
    map λ u. if u.id == uid then record u { password_hash = h; must_change_password = false } else u

module _ (c : Codec) (hash : Text → Text) (pw : Passwords) where
  -- The end of `LoginHandler`, from the generation of the tokens on.
  unfoldable pub open_session : Faults → Text → Text → ℕ → UserRow → Db → Db × Answer
  open_session f jti rid now u db = elim (generate_access_token c (login_user u) jti now) [
    | err e ↦ (db, refused 500)
    | ok (token, _) ↦
        elim (store_refresh_token hash f.store u.id rid (now + refresh_token_ttl) db) [
          | none ↦ (db, refused 500)
          | some db' ↦ (db', logged_in token (rid ++ (dot ++ u.id)) (login_user u))
        ]
  ]

  unfoldable pub login_handler : Option LoginRequest → Faults → Text → Text → ℕ → Db → Db × Answer
  login_handler none f jti rid now db = (db, refused 400)
  login_handler (some req) f jti rid now db =
      if f.query then (db, refused 500) else (elim (active_by_name req.username db.users) [
        | none ↦ (db, refused 401)
        | some u ↦
            if not (pw.check req.password u.password_hash)
            then (db, refused 401)
            else open_session f jti rid now u (touch_login f.update u.id now db)
      ])

  unfoldable pub rotate : Faults → Text → Text → Text → ℕ → UserRow → Db → Db × Answer
  rotate f token jti rid now u db = elim (generate_access_token c (session_user u) jti now) [
    | err e ↦ (db, refused 500)
    | ok (access, _) ↦
        elim (store_refresh_token hash f.store u.id rid (now + refresh_token_ttl) db) [
          | none ↦ (db, refused 500)
          | some db' ↦ (
            revoke_refresh_token_by_value hash f.revoke token db',
            refreshed access (rid ++ (dot ++ u.id)),
          )
        ]
  ]

  unfoldable pub refresh_token_handler : Option Text → Faults → Text → Text → ℕ → Db → Db × Answer
  refresh_token_handler none f jti rid now db = (db, refused 400)
  refresh_token_handler (some token) f jti rid now db =
      elim (validate_refresh_token hash f.query token now db) [
        | found u ↦ rotate f token jti rid now u db
        | _ ↦ (db, refused 401)
      ]

  -- `user_id` is the value that `AuthMiddleware` set.
  unfoldable pub logout_handler :
      Text → Text → Faults → ℕ → Db → TokenBlacklist → Db × TokenBlacklist × Answer
  logout_handler authorization user_id f now db blacklist =
      if authorization == []
      then (db, blacklist, refused 401)
      else (elim (bearer_token authorization) [
        | none ↦ (db, blacklist, refused 401)
        | some token ↦
            let blacklist' : TokenBlacklist = elim (verify_rs256 c token now) [
              | ok claims ↦ add claims.jti now blacklist
              | err e ↦ blacklist
            ] in
            let db' = if user_id == [] then db else revoke_all_refresh_tokens f.revoke user_id db in
            (db', blacklist', done)
      ])

  unfoldable pub change_password_handler :
      Option Value → Option (Text × Text) → Faults → Db → Db × Answer
  change_password_handler none req f db = (db, refused 401)
  change_password_handler (some (user u)) req f db = (db, refused 500)
  change_password_handler (some (user_pointer u)) req f db = (db, refused 500)
  change_password_handler (some (text uid)) none f db = (db, refused 400)
  change_password_handler (some (text uid)) (some (current, new)) f db =
      if f.query then (db, refused 500) else (elim (user_by_id uid db.users) [
        | none ↦ (db, refused 500)
        | some u ↦
            if not (pw.check current u.password_hash)
            then (db, refused 403)
            else (elim (pw.hash_password new) [
              | none ↦ (db, refused 500)
              | some h ↦ if f.update then (db, refused 500) else (
                revoke_all_refresh_tokens f.revoke uid
                    (record db { users = set_password uid h db.users }),
                done,
              )
            ])
      ])
