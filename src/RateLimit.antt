-- ===== src/RateLimit.antt =====
-- backend/middleware/ratelimit.go. The clock is an argument of each operation.
pub mod Window
pub mod Cleanup
use seagles.Common.{
  ℕ, suc, ◌+◌, ◌-◌, Bool, true, false, not, ◌&&◌, ◌||◌, Option, none, some, List, [], ◌∷◌, ◌++◌,
  ltb, leb, ◌==◌, nat_beq, if◌then◌else◌, length, take,
}
use seagles.Common.Int.{ℤ, pos, ◌-ℤ◌, leb_ℤ, ltb_ℤ}
use seagles.Clock.{since}
use seagles.Dict.{lookup, insert, retain}
use seagles.Text.{Text, codes, text_eq}

pub record Visitor : Type 0 where
  pub count : ℕ
  pub window_start : ℕ

pub record RateLimitRule : Type 0 where
  pub path : Text
  pub method : Text
  pub limit : ℤ
  pub window : ℕ

pub record RateLimiter : Type 0 where
  pub visitors : List (Text × Visitor)
  pub fallback : RateLimitRule
  pub rules : List RateLimitRule

unfoldable pub new_rate_limiter : ℤ → ℕ → RateLimiter
new_rate_limiter default_limit window = record {
  visitors = [];
  fallback = record { path = []; method = []; limit = default_limit; window = window };
  rules = [];
}

unfoldable pub add_rule : Text → Text → ℤ → ℕ → RateLimiter → RateLimiter
add_rule method path limit window rl = record rl {
  rules = rl.rules ++ record { path = path; method = method; limit = limit; window = window } ∷ [];
}

ends_in_star : Text → Bool
ends_in_star [] = false
ends_in_star (c ∷ []) = nat_beq c b'*'
ends_in_star (c ∷ d ∷ s) = ends_in_star (d ∷ s)

unfoldable pub match_path : Text → Text → Bool
unfolding ends_in_star
match_path pattern path =
    pattern == path
    || (ends_in_star pattern
        && (leb (length pattern - 1) (length path)
            && take (length pattern - 1) path == take (length pattern - 1) pattern))

unfoldable pub find_rule : RateLimitRule → Text → Text → List RateLimitRule → RateLimitRule
find_rule fallback method path [] = fallback
find_rule fallback method path (rule ∷ rules) =
    if rule.method == method && match_path rule.path path
    then rule
    else find_rule fallback method path rules

abbrev pub get_rule : RateLimiter → Text → Text → RateLimitRule
get_rule rl method path = find_rule rl.fallback method path rl.rules

unfoldable pub key : Text → Text → Text
key ip [] = codes "ip:" ++ ip
key ip (c ∷ user_id) = codes "user:" ++ (c ∷ user_id)

-- The three results of `Allow`.
pub record Verdict : Type 0 where
  pub allowed : Bool
  pub remaining : ℤ
  pub limit : ℤ

abbrev at_least_zero : ℤ → ℤ
at_least_zero n = if ltb_ℤ n (pos 0) then pos 0 else n

-- The part of `Allow` after the lookups.
unfoldable pub charge : Option Visitor → RateLimitRule → ℕ → Visitor × Verdict
charge none rule now = (
  record { count = 1; window_start = now },
  record { allowed = true; remaining = rule.limit -ℤ pos 1; limit = rule.limit },
)
charge (some v) rule now =
    if leb rule.window (since now v.window_start)
    then (
      record { count = 1; window_start = now },
      record { allowed = true; remaining = rule.limit -ℤ pos 1; limit = rule.limit },
    )
    else (
      record v { count = v.count + 1 },
      record {
        allowed = leb_ℤ (pos (v.count + 1)) rule.limit;
        remaining = at_least_zero (rule.limit -ℤ pos (v.count + 1));
        limit = rule.limit;
      },
    )

unfoldable pub allow : Text → Text → Text → Text → ℕ → RateLimiter → RateLimiter × Verdict
allow ip user_id method path now rl =
    let k = key ip user_id in
    let (v, verdict) = charge (lookup k rl.visitors) (get_rule rl method path) now in
    (record rl { visitors = insert k v rl.visitors }, verdict)

-- One round of the cleanup loop.
unfoldable pub cleanup : ℕ → RateLimiter → RateLimiter
cleanup now rl = record rl {
  visitors = retain (λ v. not (ltb rl.fallback.window (since now v.window_start))) rl.visitors;
}
