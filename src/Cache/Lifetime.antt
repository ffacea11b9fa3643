-- ===== src/Cache/Lifetime.antt =====
-- How long the cache keeps a value (backend/cache/cache.go).
use seagles.Common.{
  ℕ, ◌+◌, ◌≤◌, ◌≡◌, ◌⊎◌, false, not, Option, some, List, [], ◌∷◌, arith, ltb, ◌==◌, if◌then◌else◌,
  All,
}
use seagles.Dict.{
  lookup, IsMap, lookup-insert, lookup-delete, lookup-retain, insert-IsMap, delete-IsMap,
  retain-IsMap,
}
use seagles.Text.{Text, text_eq, text_beq_iff}
use seagles.Cache.{
  Item, Cache, err, err_not_found, err_expired, set_ttl, set, remove, clear, cleanup, copy_out, get,
}

-- The operations that change the cache.
pub data Op {ℓ} (V : Type ℓ) : Type ℓ where
  sets : Text → V → ℕ → Op V
  sets_ttl : Text → V → ℕ → ℕ → Op V
  removes : Text → Op V
  clears : Op V
  cleans : ℕ → Op V

module _ {ℓ} {V : Type ℓ} where
  pub apply : Op V → Cache V → Cache V
  apply (sets k v now) c = set k v now c
  apply (sets_ttl k v ttl now) c = set_ttl k v ttl now c
  apply (removes k) c = remove k c
  apply clears c = clear c
  apply (cleans now) c = cleanup now c

  pub apply_all : List (Op V) → Cache V → Cache V
  apply_all [] c = c
  apply_all (op ∷ ops) c = apply_all ops (apply op c)

  pub apply-IsMap : (op : Op V) (c : Cache V) → IsMap c.items → IsMap (apply op c).items
  unfolding apply set set_ttl remove clear cleanup
  apply-IsMap (sets k v now) c h =
      insert-IsMap k (record { value = v; expiration = now + c.ttl }) c.items h
  apply-IsMap (sets_ttl k v ttl now) c h =
      insert-IsMap k (record { value = v; expiration = now + ttl }) c.items h
  apply-IsMap (removes k) c h = delete-IsMap k c.items h
  apply-IsMap clears c h = tt
  apply-IsMap (cleans now) c h = retain-IsMap (λ it. not (ltb it.expiration now)) c.items h

  -- The operation leaves the entry of `k` alone, up to the time `until`.
  abbrev pub Spares : Text → ℕ → Op V → Type 0
  Spares k until (sets j v now) = (j == k) ≡ false
  Spares k until (sets_ttl j v ttl now) = (j == k) ≡ false
  Spares k until (removes j) = (j == k) ≡ false
  Spares k until clears = ⊥
  Spares k until (cleans now) = now ≤ until

  spared :
      (k : Text) (op : Op V) (c : Cache V) (it : Item V)
      → IsMap c.items
      → Spares k it.expiration op
      → lookup k c.items ≡ some it
      → lookup k (apply op c).items ≡ some it
  unfolding apply set set_ttl remove clear cleanup
  spared k (sets j v now) c it m s e =
      ground (arith, lookup-insert j k (record { value = v; expiration = now + c.ttl }) c.items)
  spared k (sets_ttl j v ttl now) c it m s e =
      ground (arith, lookup-insert j k (record { value = v; expiration = now + ttl }) c.items)
  spared k (removes j) c it m s e = ground (arith, lookup-delete j k c.items m)
  spared k clears c it m s e = absurd s
  spared k (cleans now) c it m s e =
      ground (arith, lookup-retain (λ (i : Item V). not (ltb i.expiration now)) k c.items m)

  spared-All :
      (k : Text) (ops : List (Op V)) (c : Cache V) (it : Item V)
      → IsMap c.items
      → All (Spares k it.expiration) ops
      → lookup k c.items ≡ some it
      → lookup k (apply_all ops c).items ≡ some it
  unfolding apply_all
  spared-All k [] c it m a e = e
  spared-All k (op ∷ ops) c it m a e =
      spared-All k ops (apply op c) it (apply-IsMap op c m) a.1 (spared k op c it m a.0 e)

module _ {ℓ κ μ} {V : Type ℓ} {B : Type κ} {D : Type μ} (marshal : V → Option B)
    (unmarshal : B → Option D) where
  -- A value that was set with a lifetime is found, as JSON copies it, up to the end of that lifetime,
  -- and is reported as expired after it, whatever is set, removed and cleaned up meanwhile, as long
  -- as its own key is left alone, the cache is not cleared and no cleanup comes after the end.
  pub get-set_ttl :
      (k : Text) (v : V) (ttl start now : ℕ) (ops : List (Op V)) (c : Cache V)
      → IsMap c.items
      → All (Spares k (start + ttl)) ops
      → get marshal unmarshal k now (apply_all ops (set_ttl k v ttl start c))
        ≡ (if ltb (start + ttl) now then err err_expired else copy_out marshal unmarshal v)
  unfolding get
  get-set_ttl k v ttl start now ops c m a = ground (arith, found)
    where
      it : Item V
      it = record { value = v; expiration = start + ttl }

      found : lookup k (apply_all ops (set_ttl k v ttl start c)).items ≡ some it
      found =
          spared-All k ops (set_ttl k v ttl start c) it
            (unfold set_ttl in insert-IsMap k it c.items m) a
            (unfold set_ttl in ground (arith, lookup-insert k k it c.items, text_beq_iff k k))

  -- A cleanup at or before the time of a `Get` changes its result in one way only: an expired entry
  -- may be reported as not found.
  pub get-cleanup :
      (k : Text) (swept now : ℕ) (c : Cache V)
      → IsMap c.items
      → swept ≤ now
      → (get marshal unmarshal k now (cleanup swept c) ≡ get marshal unmarshal k now c)
        ⊎ ((get marshal unmarshal k now c ≡ err err_expired)
            × (get marshal unmarshal k now (cleanup swept c) ≡ err err_not_found))
  unfolding get cleanup
  get-cleanup k swept now c m t =
      ground (arith, lookup-retain (λ (i : Item V). not (ltb i.expiration swept)) k c.items m)
