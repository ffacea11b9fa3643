-- ===== src/Auth/Sessions.antt =====
-- The tables `users` and `refresh_tokens`, and the statements of backend/auth/auth.go on them. A
-- statement that fails is an argument, `fault`. `hash` stands for SHA-256 in hexadecimal.
pub mod Revoke
use seagles.Common.{
  ℕ, ◌+◌, ◌*◌, Bool, true, false, not, ◌&&◌, Option, none, some, List, [], ◌∷◌, ◌++◌, ltb, ◌==◌,
  if◌then◌else◌, map, any,
}
use seagles.Clock.{hour}
use seagles.Text.{Text, text_eq, cut}

pub record UserRow : Type 0 where
  pub id : Text
  pub username : Text
  pub email : Text
  pub role : Text
  pub password_hash : Text
  pub must_change_password : Bool
  pub is_active : Bool
  pub last_login : ℕ

pub record RefreshRow : Type 0 where
  pub user_id : Text
  pub token_hash : Text
  pub expires_at : ℕ
  pub is_revoked : Bool

pub record Db : Type 0 where
  pub users : List UserRow
  pub refresh_tokens : List RefreshRow

abbrev pub refresh_token_ttl : ℕ
refresh_token_ttl = 7 * 24 * hour

-- The joined row of an active user.
unfoldable pub active_user : Text → List UserRow → Option UserRow
active_user uid [] = none
active_user uid (u ∷ us) = if u.id == uid && u.is_active then some u else active_user uid us

abbrev pub is_live : Text → ℕ → RefreshRow → Bool
is_live h now r = r.token_hash == h && (not r.is_revoked && ltb now r.expires_at)

abbrev pub or_else {ℓ} : {A : Type ℓ} → Option A → Option A → Option A
or_else none b = b
or_else (some a) b = some a

-- The first row of the query of `validateRefreshToken`.
unfoldable pub find_session : Text → ℕ → List UserRow → List RefreshRow → Option UserRow
find_session h now users [] = none
find_session h now users (r ∷ rs) =
    let rest = find_session h now users rs in
    if is_live h now r then or_else (active_user r.user_id users) rest else rest

-- `revokeAllRefreshTokens`
unfoldable pub revoke_all : Text → List RefreshRow → List RefreshRow
revoke_all uid = map λ r. if r.user_id == uid then record r { is_revoked = true } else r

-- The update of `revokeRefreshTokenByValue`.
unfoldable pub revoke_hash : Text → List RefreshRow → List RefreshRow
revoke_hash h = map λ r. if r.token_hash == h then record r { is_revoked = true } else r

abbrev pub has_hash : Text → List RefreshRow → Bool
has_hash h = any λ r. r.token_hash == h

-- `storeRefreshToken`: the hash is unique in the table. `none` is an error.
unfoldable pub store_refresh_token :
    (hash : Text → Text) (fault : Bool) → Text → Text → ℕ → Db → Option Db
store_refresh_token hash fault uid token_id expires_at db =
    if fault
    then none
    else (if has_hash (hash token_id) db.refresh_tokens
        then none
        else some (record db {
          refresh_tokens =
              db.refresh_tokens
              ++ record {
                user_id = uid;
                token_hash = hash token_id;
                expires_at = expires_at;
                is_revoked = false;
              }
                ∷ [];
        }))

-- The identifier in a refresh token, the part before the dot.
unfoldable pub refresh_token_id : Text → Option Text
refresh_token_id token = elim (cut b'.' token) [ none ↦ none | some (id, _) ↦ some id ]

pub data Lookup : Type 0 where
  found : UserRow → Lookup
  bad_format no_session query_failed : Lookup

abbrev found_or : Option UserRow → Lookup
found_or none = no_session
found_or (some u) = found u

-- `validateRefreshToken`
unfoldable pub validate_refresh_token : (hash : Text → Text) (fault : Bool) → Text → ℕ → Db → Lookup
validate_refresh_token hash fault token now db = elim (refresh_token_id token) [
  | none ↦ bad_format
  | some id ↦
      if fault
      then query_failed
      else found_or (find_session (hash id) now db.users db.refresh_tokens)
]

-- `revokeRefreshTokenByValue`, whose error the caller only logs.
unfoldable pub revoke_refresh_token_by_value : (hash : Text → Text) (fault : Bool) → Text → Db → Db
revoke_refresh_token_by_value hash fault token db = elim (refresh_token_id token) [
  | none ↦ db
  | some id ↦
      if fault then db else record db { refresh_tokens = revoke_hash (hash id) db.refresh_tokens }
]

unfoldable pub revoke_all_refresh_tokens : (fault : Bool) → Text → Db → Db
revoke_all_refresh_tokens fault uid db =
    if fault then db else record db { refresh_tokens = revoke_all uid db.refresh_tokens }
