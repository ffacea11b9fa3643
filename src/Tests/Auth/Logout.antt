-- ===== src/Tests/Auth/Logout.antt =====
-- A user who logs out (backend/auth/auth.go).
use seagles.Common.{◌+◌, ◌≡◌, ◌≢◌, refl, false, some, ◌++◌, arith}
use seagles.Clock.{hour, minute}
use seagles.Text.{Text, codes, text_eq, cut, to_lower}
use seagles.Auth.Tokens.{ok, verify_rs256, split_token, check_claims}
use seagles.Auth.Middleware.{bearer_token}
use seagles.Auth.Sessions.{
  Db, found, validate_refresh_token, find_session, active_user, refresh_token_id,
  revoke_all_refresh_tokens, revoke_all,
}
use seagles.Auth.Handlers.{Answer, logout_handler}
use seagles.Auth.Handlers.Logout.{logout_refuses_refresh}
use seagles.Blacklist.{TokenBlacklist}
use seagles.Tests.Auth.Codec.{
  codec, codec-IsCodec, ann, jti, issued, claims, token, token_made, unpack,
}
use seagles.Tests.Auth.Users.{same, passwords, bob_row, db, no_faults, nothing}

abbrev bearer : Text
bearer = codes "Bearer " ++ token

bearer_read : bearer_token bearer ≡ some token
unfolding bearer_token cut to_lower
bearer_read = refl

token_verified : verify_rs256 codec token (issued + minute) ≡ ok claims
unfolding verify_rs256 split_token check_claims cut unpack
token_verified = refl

abbrev after_logout : Db × TokenBlacklist × Answer
after_logout =
    logout_handler codec same passwords bearer (codes "u1") no_faults (issued + minute) db nothing

-- Bob's session is still accepted, so it is not Ann's.
bob_accepted :
    validate_refresh_token same false (codes "r9.u2") (issued + hour) after_logout.0 ≡ found bob_row
unfolding logout_handler verify_rs256 split_token check_claims cut unpack bearer_token to_lower
    revoke_all_refresh_tokens revoke_all validate_refresh_token find_session active_user
    refresh_token_id
bob_accepted = refl

logout_refuses_refresh_example : bob_row.id ≢ ann.id
logout_refuses_refresh_example =
    logout_refuses_refresh codec codec-IsCodec same passwords no_faults bearer token jti ann claims
      claims issued (issued + minute) db nothing refl bearer_read token_made token_verified
      (ground arith) (ground arith) (issued + hour) (codes "r9.u2") bob_row bob_accepted

bob_before : validate_refresh_token same false (codes "r9.u2") (issued + hour) db ≡ found bob_row
unfolding cut validate_refresh_token find_session active_user refresh_token_id
bob_before = refl
