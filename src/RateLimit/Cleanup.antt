-- ===== src/RateLimit/Cleanup.antt =====
-- The cleanup loop of the rate limiter (backend/middleware/ratelimit.go).
use seagles.Common.{ℕ, ◌≤◌, ◌<◌, ◌≡◌, true, false, not, some, arith, ltb}
use seagles.Common.Int.{pos}
use seagles.Clock.{since}
use seagles.Dict.{lookup, IsMap, lookup-retain, insert-IsMap, retain-IsMap}
use seagles.Text.{text_eq}
use seagles.RateLimit.{Visitor, RateLimiter, get_rule, charge, allow, cleanup}
use seagles.RateLimit.Window.{Request, key_of, serve}

-- No client has two counters, after any request and any cleanup.
pub serve-IsMap :
    (r : Request) (rl : RateLimiter) → IsMap rl.visitors → IsMap (serve r rl).0.visitors
unfolding allow
serve-IsMap r rl h =
    insert-IsMap (key_of r)
      (charge (lookup (key_of r) rl.visitors) (get_rule rl r.method r.path) r.now).0 rl.visitors h

pub cleanup-IsMap :
    (now : ℕ) (rl : RateLimiter) → IsMap rl.visitors → IsMap (cleanup now rl).visitors
unfolding cleanup
cleanup-IsMap now rl h =
    retain-IsMap (λ v. not (ltb rl.fallback.window (since now v.window_start))) rl.visitors h

-- A cleanup changes no verdict of a request that falls under a rule whose window is no longer than
-- the fallback's, from the time of the cleanup on.
pub cleanup_invisible :
    (now : ℕ) (rl : RateLimiter) (r : Request)
    → IsMap rl.visitors
    → (get_rule rl r.method r.path).window ≤ rl.fallback.window
    → now ≤ r.now
    → (serve r (cleanup now rl)).1 ≡ (serve r rl).1
unfolding allow charge cleanup
cleanup_invisible now rl r m w t = ground (
  arith,
  lookup-retain (λ (v : Visitor). not (ltb rl.fallback.window (since now v.window_start)))
      (key_of r) rl.visitors m,
)

-- Under a rule with a longer window the cleanup forgets counters that are still running: a client
-- that has used up its limit is refused, but is let through again at the same moment if a cleanup
-- comes first.
pub cleanup_forgets :
    (rl : RateLimiter) (r : Request) (v : Visitor) (n : ℕ)
    → IsMap rl.visitors
    → lookup (key_of r) rl.visitors ≡ some v
    → (get_rule rl r.method r.path).limit ≡ pos n
    → n ≤ v.count
    → rl.fallback.window < since r.now v.window_start
    → since r.now v.window_start < (get_rule rl r.method r.path).window
    → ((serve r rl).1.allowed ≡ false) × ((serve r (cleanup r.now rl)).1.allowed ≡ true)
unfolding allow charge cleanup
cleanup_forgets rl r v n m e l c f w = ground (
  arith,
  lookup-retain (λ (v : Visitor). not (ltb rl.fallback.window (since r.now v.window_start)))
      (key_of r) rl.visitors m,
)
