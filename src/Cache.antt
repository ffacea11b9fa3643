-- ===== src/Cache.antt =====
-- backend/cache/cache.go. `V` is the type of the values that are kept. `Get` copies a value through
-- JSON into a destination of type `D`: `marshal` and `unmarshal` stand for encoding/json.
pub mod Lifetime
use seagles.Common.{ℕ, ◌+◌, Bool, not, Option, none, some, List, [], ltb, if◌then◌else◌, length}
use seagles.Dict.{lookup, insert, delete, retain}
use seagles.Text.{Text, text_eq}

pub record Item {ℓ} (V : Type ℓ) : Type ℓ where
  pub value : V
  pub expiration : ℕ

pub record Cache {ℓ} (V : Type ℓ) : Type ℓ where
  pub items : List (Text × Item V)
  pub ttl : ℕ

pub data CacheError : Type 0 where
  err_not_found err_expired err_json : CacheError

pub data Result {ℓ} (A : Type ℓ) : Type ℓ where
  ok : A → Result A
  err : CacheError → Result A

abbrev pub or_json {ℓ} : {A : Type ℓ} → Option A → Result A
or_json none = err err_json
or_json (some a) = ok a

module _ {ℓ} {V : Type ℓ} where
  unfoldable pub new_cache : ℕ → Cache V
  new_cache ttl = record { items = []; ttl = ttl }

  unfoldable pub set_ttl : Text → V → ℕ → ℕ → Cache V → Cache V
  set_ttl k v ttl now c = record c {
    items = insert k (record { value = v; expiration = now + ttl }) c.items;
  }

  unfoldable pub set : Text → V → ℕ → Cache V → Cache V
  set k v now c = record c {
    items = insert k (record { value = v; expiration = now + c.ttl }) c.items;
  }

  unfoldable pub remove : Text → Cache V → Cache V
  remove k c = record c { items = delete k c.items }

  unfoldable pub clear : Cache V → Cache V
  clear c = record c { items = [] }

  unfoldable pub count : Cache V → ℕ
  count c = length c.items

  -- One round of the cleanup loop.
  unfoldable pub cleanup : ℕ → Cache V → Cache V
  cleanup now c = record c { items = retain (λ it. not (ltb it.expiration now)) c.items }

module _ {ℓ κ μ} {V : Type ℓ} {B : Type κ} {D : Type μ} (marshal : V → Option B)
    (unmarshal : B → Option D) where
  unfoldable pub copy_out : V → Result D
  copy_out v = elim (marshal v) [ none ↦ err err_json | some b ↦ or_json (unmarshal b) ]

  unfoldable pub get : Text → ℕ → Cache V → Result D
  get k now c = elim (lookup k c.items) [
    | none ↦ err err_not_found
    | some it ↦ if ltb it.expiration now then err err_expired else copy_out it.value
  ]
