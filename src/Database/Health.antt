-- ===== src/Database/Health.antt =====
-- What the health monitor reports (backend/db/db.go).
use seagles.Common.{ℕ, zero, suc, ◌≡◌, refl, Bool, some, List, [], ◌∷◌, arith, any, take}
use seagles.Database.{DbMonitor, reconnect, health_check, is_healthy}

reconnect-any : (n : ℕ) (pings : List Bool) → reconnect n pings ≡ any (λ b. b) (take n pings)
unfolding reconnect
reconnect-any zero pings = refl
reconnect-any (suc n) [] = refl
reconnect-any (suc n) (b ∷ pings) = ground (arith, reconnect-any n pings)

pub record Tick : Type 0 where
  pub ping : Bool
  pub retries : List Bool
  pub now : ℕ

pub ticks : List Tick → DbMonitor → DbMonitor
ticks [] m = m
ticks (t ∷ ts) m = ticks ts (health_check t.ping t.retries t.now m)

-- After a tick the database is reported healthy exactly if the ping or one of the first five
-- retries of that tick succeeded, whatever happened before.
pub healthy_iff_pinged :
    (m : DbMonitor) (ts : List Tick) (t : Tick)
    → is_healthy (some (health_check t.ping t.retries t.now (ticks ts m)))
      ≡ any (λ b. b) (t.ping ∷ take 5 t.retries)
unfolding health_check is_healthy
healthy_iff_pinged m ts t = ground (arith, reconnect-any 5 t.retries)
