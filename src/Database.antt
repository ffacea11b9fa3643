-- ===== src/Database.antt =====
-- backend/db/db.go: the settings of the connection pool, the health monitor, and the search for the
-- directory of migrations. What a ping finds, the clock and the file system are arguments.
pub mod Health
use seagles.Common.{
  ℕ, zero, suc, ◌+◌, ◌*◌, Bool, true, false, not, Option, none, some, List, [], ◌∷◌, ◌++◌, nat_beq,
  ◌==◌, if◌then◌else◌,
}
use seagles.Common.Int.{ℤ, pos, negsuc}
use seagles.Clock.{minute}
use seagles.Text.{Text, codes, text_eq}

pub record Pool : Type 0 where
  pub max_open_conns : ℕ
  pub max_idle_conns : ℕ
  pub conn_max_lifetime : ℕ
  pub conn_max_idle_time : ℕ

-- A setting of 0 or less is replaced.
abbrev or_default : ℕ → ℤ → ℕ
or_default d (pos n) = if nat_beq n 0 then d else n
or_default d (negsuc n) = d

unfoldable pub pool : ℤ → ℤ → ℤ → Pool
pool max_open max_idle lifetime = record {
  max_open_conns = or_default 25 max_open;
  max_idle_conns = or_default 5 max_idle;
  conn_max_lifetime = or_default (5 * minute) lifetime;
  conn_max_idle_time = 2 * minute;
}

pub record DbMonitor : Type 0 where
  pub healthy : Bool
  pub last_checked : ℕ

unfoldable pub new_db_monitor : DbMonitor
new_db_monitor = record { healthy = true; last_checked = 0 }

-- The loop of retries, with the number that is left; the answers say whether a ping succeeds.
unfoldable pub reconnect : ℕ → List Bool → Bool
reconnect zero pings = false
reconnect (suc n) [] = false
reconnect (suc n) (ok ∷ pings) = let later = reconnect n pings in if ok then true else later

-- One tick of `startHealthChecks`.
unfoldable pub health_check : Bool → List Bool → ℕ → DbMonitor → DbMonitor
unfolding reconnect
health_check ping retries now m = record {
  healthy = (if ping then true else reconnect 5 retries);
  last_checked = now;
}

-- `IsHealthy` of the package, which has no monitor before it has connected.
unfoldable pub is_healthy : Option DbMonitor → Bool
is_healthy none = false
is_healthy (some m) = m.healthy

abbrev pub candidates : List Text
candidates = codes "db/migrations" ∷ codes "backend/db/migrations" ∷ codes "../db/migrations" ∷ []

module _ (is_dir : Text → Bool) where
  unfoldable pub first_dir : List Text → Option Text
  first_dir [] = none
  first_dir (d ∷ ds) = let later = first_dir ds in if is_dir d then some d else later

  abbrev or_else : Option Text → Option Text → Option Text
  or_else none o = o
  or_else (some d) o = some d

  abbrev beside : Option Text → Option Text
  beside none = none
  beside (some exec_dir) =
      let d = exec_dir ++ codes "/db/migrations" in if is_dir d then some d else none

  -- `none` where the program stops; the arguments are MIGRATIONS_DIR and the directory of the
  -- executable.
  unfoldable pub find_migrations_dir : Text → Option Text → Option Text
  unfolding first_dir
  find_migrations_dir env_path exec_dir =
      let fallback = or_else (first_dir candidates) (beside exec_dir) in
      if env_path == [] then fallback else (if is_dir env_path then some env_path else fallback)
