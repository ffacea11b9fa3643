-- ===== src/Tests/Auth/Sessions.antt =====
-- A session that is refreshed (backend/auth/auth.go).
use seagles.Common.{◌+◌, ◌≡◌, ◌≢◌, refl, true, false, some, [], ◌∷◌, arith}
use seagles.Clock.{hour}
use seagles.Text.{Text, codes, text_eq, cut}
use seagles.Auth.{User}
use seagles.Auth.Tokens.{
  ok, access_claims, validate_access_token, verify_rs256, split_token, check_claims,
  generate_access_token, sign_rs256,
}
use seagles.Auth.Sessions.{
  Db, found, validate_refresh_token, find_session, active_user, refresh_token_id,
  store_refresh_token, revoke_refresh_token_by_value, revoke_hash,
}
use seagles.Auth.Handlers.{refreshed, session_user, rotate, refresh_token_handler}
use seagles.Auth.Handlers.Rotation.{refresh_spends_token, refresh_drops_flag, refresh_gives_session}
use seagles.Dict.{lookup}
use seagles.Blacklist.{is_blacklisted}
use seagles.Tests.Auth.Codec.{codec, codec-IsCodec, jti, issued, token_of, unpack}
use seagles.Tests.Auth.Users.{same, passwords, ann_row, session, db, no_faults, nothing}

abbrev rotated : Db
rotated = record db {
  refresh_tokens =
      session (codes "u1") (codes "r1") true
      ∷ session (codes "u2") (codes "r9") false
      ∷ session (codes "u1") (codes "r2") false
      ∷ [];
}

abbrev access : Text
access = token_of (access_claims codec (session_user ann_row) jti issued)

refresh_done :
    refresh_token_handler codec same passwords
      (some (codes "r1.u1"))
      no_faults
      jti
      (codes "r2")
      issued
      db
    ≡ (rotated, refreshed access (codes "r2.u1"))
unfolding refresh_token_handler rotate validate_refresh_token find_session active_user
    refresh_token_id store_refresh_token revoke_refresh_token_by_value revoke_hash cut
    generate_access_token sign_rs256
refresh_done = refl

refresh_spends_token_example :
    validate_refresh_token same false (codes "r1.u1") (issued + hour) rotated ≢ found ann_row
refresh_spends_token_example =
    refresh_spends_token codec same passwords no_faults (codes "r1.u1") jti (codes "r2") issued db
      rotated access (codes "r2.u1") refresh_done (issued + hour) refl ann_row

refresh_gives_session_example :
    validate_refresh_token same false (codes "r2.u1") (issued + hour) rotated
    ≡ validate_refresh_token same false (codes "r1.u1") issued db
refresh_gives_session_example =
    refresh_gives_session codec same passwords no_faults (codes "r1.u1") jti (codes "r2") issued db
      rotated access (codes "r2.u1") refresh_done (issued + hour) (refl, (refl, tt))
      (unfold refresh_token_id cut in λ id e. ground (arith, e)) (omega arith)

abbrev unflagged : User
unflagged = record (session_user ann_row) { token_id = jti }

access_accepted : validate_access_token codec access issued nothing ≡ ok unflagged
unfolding validate_access_token verify_rs256 split_token check_claims cut unpack is_blacklisted
    lookup
access_accepted = refl

refresh_drops_flag_example : unflagged.must_change_password ≡ false
refresh_drops_flag_example =
    refresh_drops_flag codec same passwords no_faults (codes "r1.u1") jti (codes "r2") issued db
      rotated access (codes "r2.u1") refresh_done codec-IsCodec issued nothing unflagged
      access_accepted
