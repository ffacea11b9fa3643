-- ===== src/Tests/Auth/Users.antt =====
-- Two users and their sessions (backend/auth/auth.go).
use seagles.Common.{◌+◌, ◌*◌, Bool, true, false, some, [], ◌∷◌, ◌==◌}
use seagles.Clock.{hour}
use seagles.Text.{Text, codes, text_eq}
use seagles.Auth.Sessions.{UserRow, RefreshRow, Db, refresh_token_ttl}
use seagles.Auth.Handlers.{Passwords, Faults}
use seagles.Blacklist.{TokenBlacklist}
use seagles.Tests.Auth.Codec.{issued}

abbrev pub same : Text → Text
same t = t

abbrev pub passwords : Passwords
passwords = record { check = λ p h. p == h; hash_password = some }

abbrev pub row_of : Text → Text → Bool → UserRow
row_of id name flag = record {
  id = id;
  username = name;
  email = [];
  role = codes "operator";
  password_hash = codes "secret";
  must_change_password = flag;
  is_active = true;
  last_login = 0;
}

abbrev pub ann_row : UserRow
ann_row = row_of (codes "u1") (codes "ann") true

abbrev pub bob_row : UserRow
bob_row = row_of (codes "u2") (codes "bob") false

abbrev pub session : Text → Text → Bool → RefreshRow
session uid h revoked = record {
  user_id = uid;
  token_hash = h;
  expires_at = issued + refresh_token_ttl;
  is_revoked = revoked;
}

abbrev pub db : Db
db = record {
  users = ann_row ∷ bob_row ∷ [];
  refresh_tokens =
      session (codes "u1") (codes "r1") false ∷ session (codes "u2") (codes "r9") false ∷ [];
}

abbrev pub no_faults : Faults
no_faults = record { query = false; update = false; store = false; revoke = false }

abbrev pub nothing : TokenBlacklist
nothing = record { entries = []; max_ttl = 24 * hour }
