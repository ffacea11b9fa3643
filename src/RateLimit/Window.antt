-- ===== src/RateLimit/Window.antt =====
-- The fixed-window promise of the rate limiter (backend/middleware/ratelimit.go): how many requests
-- of a client pass in one window, and that a window ends.
use seagles.Common.{
  ℕ, ◌+◌, ◌-◌, ◌≤◌, ◌<◌, ◌≡◌, min, Bool, true, false, ◌&&◌, some, List, [], ◌∷◌, arith, ◌∙◌, inl,
  inr, ◌==◌, All, Bool-cases,
}
use seagles.Common.Int.{pos, leb_ℤ}
use seagles.Clock.{since}
use seagles.Dict.{lookup, lookup-insert}
use seagles.Text.{Text, text_eq, text_beq_iff}
use seagles.RateLimit.{
  Visitor, RateLimitRule, RateLimiter, Verdict, find_rule, get_rule, key, charge, allow,
}

pub record Request : Type 0 where
  pub ip : Text
  pub user_id : Text
  pub method : Text
  pub path : Text
  pub now : ℕ

abbrev pub key_of : Request → Text
key_of r = key r.ip r.user_id

abbrev pub serve : Request → RateLimiter → RateLimiter × Verdict
serve r rl = allow r.ip r.user_id r.method r.path r.now rl

abbrev one_if : Bool → ℕ
one_if true = 1
one_if false = 0

-- How many requests of the client `k` are in a sequence, and how many of them are allowed. The
-- sequence may hold requests of other clients too.
pub requests : Text → List Request → ℕ
requests k [] = 0
requests k (r ∷ rs) = one_if (key_of r == k) + requests k rs

pub grants : Text → List Request → RateLimiter → ℕ
grants k [] rl = 0
grants k (r ∷ rs) rl = one_if (key_of r == k && (serve r rl).1.allowed) + grants k rs (serve r rl).0

pub serve_all : List Request → RateLimiter → RateLimiter
serve_all [] rl = rl
serve_all (r ∷ rs) rl = serve_all rs (serve r rl).0

-- A request, if it is one of the client `k`, falls under `rule` and into the window that began at
-- `start`.
abbrev pub InWindow :
    Text → RateLimitRule → ℕ → RateLimitRule → List RateLimitRule → Request → Type 0
InWindow k rule start fallback rules r =
    (key_of r == k) ≡ true
    → (find_rule fallback r.method r.path rules ≡ rule) × (since r.now start < rule.window)

serve_other :
    (k : Text) (r : Request) (rl : RateLimiter)
    → (key_of r == k) ≡ false
    → lookup k (serve r rl).0.visitors ≡ lookup k rl.visitors
unfolding allow
serve_other k r rl h = ground (
  arith,
  lookup-insert (key_of r) k
      (charge (lookup (key_of r) rl.visitors) (get_rule rl r.method r.path) r.now).0 rl.visitors,
)

serve_client :
    (k : Text) (r : Request) (rl : RateLimiter) (v : Visitor)
    → (key_of r == k) ≡ true
    → lookup k rl.visitors ≡ some v
    → since r.now v.window_start < (get_rule rl r.method r.path).window
    → (lookup k (serve r rl).0.visitors ≡ some (record v { count = v.count + 1 }))
      × ((serve r rl).1.allowed ≡ leb_ℤ (pos (v.count + 1)) (get_rule rl r.method r.path).limit)
unfolding allow charge
serve_client k r rl v h e w = ground (
  arith,
  text_beq_iff (key_of r) k,
  lookup-insert (key_of r) k
      (charge (lookup (key_of r) rl.visitors) (get_rule rl r.method r.path) r.now).0 rl.visitors,
)

-- In a window in which the client `k` has already been counted `v.count` times, further requests of
-- the client pass exactly as long as the rule's limit is not used up, whatever other clients send
-- between them.
pub grants-min :
    (k : Text) (rule : RateLimitRule) (n : ℕ) (rs : List Request) (rl : RateLimiter) (v : Visitor)
    → rule.limit ≡ pos n
    → lookup k rl.visitors ≡ some v
    → All (InWindow k rule v.window_start rl.fallback rl.rules) rs
    → grants k rs rl ≡ min (requests k rs) (n - v.count)
unfolding grants requests
grants-min k rule n [] rl v l e a = omega arith
grants-min k rule n (r ∷ rs) rl v l e a = elim (Bool-cases (key_of r == k)) [
  | inl h ↦
      let s = serve_client k r rl v h e (rw ((a.0 h).0) (a.0 h).1) in
      let ih =
        grants-min k rule n rs (serve r rl).0 (record v { count = v.count + 1 }) l s.0
          (unfold allow in a.1) in
      ground (arith, h, s, (a.0 h), ih)
  | inr h ↦
      let ih =
        grants-min k rule n rs (serve r rl).0 v l (serve_other k r rl h ∙ e)
          (unfold allow in a.1) in
      ground (arith, h, ih)
]

-- A request in the window moves neither the start of the window nor, whatever the client keeps
-- sending, the moment at which it is let through again: from one window length after the start on
-- the next request is allowed.
pub window_ends :
    (k : Text) (rule : RateLimitRule) (rs : List Request) (rl : RateLimiter) (v : Visitor)
    (r : Request)
    → lookup k rl.visitors ≡ some v
    → All (InWindow k rule v.window_start rl.fallback rl.rules) rs
    → key_of r ≡ k
    → (get_rule rl r.method r.path).window ≤ since r.now v.window_start
    → (serve r (serve_all rs rl)).1.allowed ≡ true
unfolding serve_all
window_ends k rule [] rl v r e a q w = unfold allow charge in ground arith
window_ends k rule (r' ∷ rs) rl v r e a q w = elim (Bool-cases (key_of r' == k)) [
  | inl h ↦
      let s = serve_client k r' rl v h e (rw ((a.0 h).0) (a.0 h).1) in
      window_ends k rule rs (serve r' rl).0 (record v { count = v.count + 1 }) r s.0
        (unfold allow in a.1) q (unfold allow in w)
  | inr h ↦
      window_ends k rule rs (serve r' rl).0 v r (serve_other k r' rl h ∙ e) (unfold allow in a.1) q
        (unfold allow in w)
]
