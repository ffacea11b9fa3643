-- ===== src/Tests/Cache.antt =====
-- A value in the cache (backend/cache/cache.go).
use seagles.Common.{ℕ, ◌≡◌, refl, Option, some, List, [], ◌∷◌, arith, ltb, if◌then◌else◌}
use seagles.Dict.{lookup}
use seagles.Text.{codes}
use seagles.Cache.{Cache, err, err_expired, set_ttl, copy_out, get}
use seagles.Cache.Lifetime.{Op, sets, removes, cleans, apply_all, get-set_ttl}

abbrev json : ℕ → Option ℕ
json n = some n

abbrev one : Cache ℕ
one = record { items = (codes "a", record { value = 7; expiration = 30 }) ∷ []; ttl = 60 }

abbrev between : List (Op ℕ)
between = sets (codes "c") 8 12 ∷ removes (codes "a") ∷ cleans 14 ∷ []

get-set_ttl_example :
    get json json (codes "b") 20 (apply_all between (set_ttl (codes "b") 5 10 10 one))
    ≡ (if ltb 20 20 then err err_expired else copy_out json json 5)
get-set_ttl_example =
    get-set_ttl json json (codes "b") 5 10 10 20 between one (unfold lookup in (refl, tt))
      (refl, (refl, (omega arith, tt)))
