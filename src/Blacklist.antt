-- ===== src/Blacklist.antt =====
-- backend/cache/blacklist.go: the access tokens that were revoked, by their identifier.
pub mod Revoked
use seagles.Common.{ℕ, ◌-◌, ◌*◌, Bool, not, List, [], ltb, length}
use seagles.Clock.{hour}
use seagles.Dict.{lookup, insert, delete, retain, is_some}
use seagles.Text.{Text, text_eq}

-- `addedAt` by identifier.
pub record TokenBlacklist : Type 0 where
  pub entries : List (Text × ℕ)
  pub max_ttl : ℕ

unfoldable pub new_token_blacklist : TokenBlacklist
new_token_blacklist = record { entries = []; max_ttl = 24 * hour }

unfoldable pub add : Text → ℕ → TokenBlacklist → TokenBlacklist
add jti now b = record b { entries = insert jti now b.entries }

unfoldable pub is_blacklisted : Text → TokenBlacklist → Bool
is_blacklisted jti b = is_some (lookup jti b.entries)

unfoldable pub remove : Text → TokenBlacklist → TokenBlacklist
remove jti b = record b { entries = delete jti b.entries }

unfoldable pub len : TokenBlacklist → ℕ
len b = length b.entries

-- One round of the cleanup loop. A time is far later than `max_ttl`, so the cutoff does not underflow.
unfoldable pub cleanup : ℕ → TokenBlacklist → TokenBlacklist
cleanup now b = record b {
  entries = retain (λ added_at. not (ltb added_at (now - b.max_ttl))) b.entries;
}
