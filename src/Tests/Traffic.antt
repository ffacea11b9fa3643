-- ===== src/Tests/Traffic.antt =====
-- Requests of two clients, and CSRF tokens (backend/middleware).
use seagles.Common.{ℕ, ◌≡◌, refl, false, List, [], ◌∷◌, arith, min}
use seagles.Common.Int.{pos}
use seagles.Dict.{lookup}
use seagles.Text.{Text, codes, text_eq}
use seagles.RateLimit.{Visitor, RateLimitRule, RateLimiter, key, find_rule, match_path}
use seagles.RateLimit.Window.{Request, requests, grants, grants-min}
use seagles.Csrf as C
use seagles.Csrf.{
  CsrfStore, validate_csrf_token, set_csrf_token, csrf_middleware, is_safe_method, pass,
}
use seagles.Csrf.SingleUse as S
use seagles.Csrf.SingleUse.{validate_once, validate-set_csrf_token, csrf_middleware_passes}

abbrev scans : RateLimitRule
scans = record { path = codes "/api/*"; method = codes "POST"; limit = pos 2; window = 100 }

abbrev counted : Visitor
counted = record { count = 1; window_start = 10 }

abbrev ann : Text
ann = codes "ip:ann"

abbrev limiter_of : Visitor → RateLimiter
limiter_of v = record {
  visitors = (ann, v) ∷ [];
  fallback = record { path = []; method = []; limit = pos 5; window = 50 };
  rules = scans ∷ [];
}

abbrev from : Text → ℕ → Request
from ip now = record {
  ip = ip;
  user_id = [];
  method = codes "POST";
  path = codes "/api/scans";
  now = now;
}

abbrev crowd : List Request
crowd = from (codes "ann") 20 ∷ from (codes "bob") 30 ∷ from (codes "ann") 40 ∷ []

grants-min_example : grants ann crowd (limiter_of counted) ≡ min (requests ann crowd) 1
unfolding find_rule match_path key
grants-min_example =
    grants-min ann scans 2 crowd (limiter_of counted) counted refl (unfold lookup in refl)
      (λ e. (refl, ground arith), (λ e. (refl, ground arith), (λ e. (refl, ground arith), tt)))

abbrev get_from : Text → ℕ → Request
get_from ip now = record (from ip now) { method = codes "GET" }

abbrev used_up : Visitor
used_up = record { count = 2; window_start = 10 }

abbrev same : Text → Text
same t = t

abbrev store : CsrfStore
store = record { tokens = (codes "abc", 90) ∷ []; max_age = 100 }

abbrev later_ops : List S.Op
later_ops = S.mints (codes "new") 20 ∷ S.checks (codes "abc") 25 ∷ S.purges 30 ∷ []

validate_once_example :
    (validate_csrf_token same
      (codes "abc")
      40
      (S.apply_all same later_ops (validate_csrf_token same (codes "abc") 10 store).0)).1
    ≡ false
validate_once_example =
    validate_once same (codes "abc") 10 40 later_ops store (unfold lookup in (refl, tt))
      (refl, (tt, (tt, tt)))

abbrev post : C.Request
post = record { authorization = []; method = codes "POST"; csrf_token = codes "abc" }
