-- ===== src/Tests/Auth/Password.antt =====
-- A login and a change of password (backend/auth/auth.go).
use seagles.Common.{◌+◌, ◌≡◌, ◌≢◌, refl, true, false, some, [], ◌∷◌, ◌++◌}
use mathlib.Core.List.{Mem}
use seagles.Clock.{hour}
use seagles.Text.{codes, text_eq, cut}
use seagles.Auth.Tokens.{dot, access_claims, generate_access_token, sign_rs256}
use seagles.Auth.Middleware.{text}
use seagles.Auth.Sessions.{
  UserRow, Db, found, validate_refresh_token, find_session, active_user, refresh_token_id,
  store_refresh_token, revoke_all_refresh_tokens, revoke_all,
}
use seagles.Auth.Handlers.{
  logged_in, done, LoginRequest, login_user, active_by_name, user_by_id, set_password, touch_login,
  open_session, login_handler, change_password_handler,
}
use seagles.Auth.Handlers.Password.{login_sound, change_password_ends_sessions}
use seagles.Tests.Auth.Codec.{codec, jti, issued, token_of}
use seagles.Tests.Auth.Users.{same, passwords, ann_row, bob_row, session, db, no_faults}

abbrev login : LoginRequest
login = record { username = codes "ann"; password = codes "secret" }

abbrev after_login : Db
after_login = record db {
  users = record ann_row { last_login = issued } ∷ bob_row ∷ [];
  refresh_tokens =
      session (codes "u1") (codes "r1") false
      ∷ session (codes "u2") (codes "r9") false
      ∷ session (codes "u1") (codes "r3") false
      ∷ [];
}

login_done :
    login_handler codec same passwords (some login) no_faults jti (codes "r3") issued db ≡ (
      after_login,
      logged_in
          (token_of (access_claims codec (login_user ann_row) jti issued))
          (codes "r3.u1")
          (login_user ann_row),
    )
unfolding login_handler open_session touch_login active_by_name store_refresh_token
    generate_access_token sign_rs256
login_done = refl

login_sound_example :
    (u : UserRow) × Mem u db.users
    × (u.username ≡ codes "ann")
    × (u.is_active ≡ true)
    × (passwords.check (codes "secret") u.password_hash ≡ true)
    × (login_user ann_row ≡ login_user u)
    × (codes "r3.u1" ≡ codes "r3" ++ (dot ++ u.id))
login_sound_example =
    login_sound codec same passwords no_faults login jti (codes "r3") issued db after_login
      (token_of (access_claims codec (login_user ann_row) jti issued)) (codes "r3.u1")
      (login_user ann_row) login_done

abbrev stranger : LoginRequest
stranger = record { username = codes "eve"; password = codes "x" }

abbrev changed : Db
changed = record {
  users =
      record ann_row { password_hash = codes "better"; must_change_password = false }
      ∷ bob_row
      ∷ [];
  refresh_tokens =
      session (codes "u1") (codes "r1") true ∷ session (codes "u2") (codes "r9") false ∷ [];
}

change_done :
    change_password_handler codec same passwords
      (some (text (codes "u1")))
      (some (codes "secret", codes "better"))
      no_faults
      db
    ≡ (changed, done)
unfolding change_password_handler user_by_id set_password revoke_all_refresh_tokens revoke_all
change_done = refl

bob_stays :
    validate_refresh_token same false (codes "r9.u2") (issued + hour) changed ≡ found bob_row
unfolding cut validate_refresh_token find_session active_user refresh_token_id
bob_stays = refl

change_password_ends_sessions_example : bob_row.id ≢ codes "u1"
change_password_ends_sessions_example =
    change_password_ends_sessions codec same passwords no_faults (codes "u1") (codes "secret")
      (codes "better") db changed (codes "r9.u2") (issued + hour) bob_row refl change_done bob_stays
