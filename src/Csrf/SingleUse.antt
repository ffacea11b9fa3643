-- ===== src/Csrf/SingleUse.antt =====
-- A CSRF token is good for one request, within its lifetime (backend/middleware/csrf.go).
use seagles.Common.{
  ℕ, ◌+◌, ◌≤◌, ◌≡◌, ◌≢◌, ◌⊎◌, ◌↔◌, true, false, not, none, some, List, [], ◌∷◌, arith, ltb, ◌==◌,
  All,
}
use seagles.Dict.{
  lookup, IsMap, lookup-insert, lookup-delete, lookup-retain, insert-IsMap, delete-IsMap,
  retain-IsMap,
}
use seagles.Text.{Text, codes, text_eq, text_beq_iff, has_prefix}
use seagles.Csrf.{
  CsrfStore, Request, pass, is_safe_method, set_csrf_token, validate_csrf_token, purge,
  csrf_middleware,
}

pub data Op : Type 0 where
  mints : Text → ℕ → Op
  checks : Text → ℕ → Op
  purges : ℕ → Op

module _ (hash : Text → Text) where
  validate-IsMap :
      (token : Text) (now : ℕ) (s : CsrfStore)
      → IsMap s.tokens
      → IsMap (validate_csrf_token hash token now s).0.tokens
  unfolding validate_csrf_token
  validate-IsMap token now s m = ground (arith, m, delete-IsMap (hash token) s.tokens m)

  pub apply : Op → CsrfStore → CsrfStore
  apply (mints t now) s = set_csrf_token hash t now s
  apply (checks t now) s = (validate_csrf_token hash t now s).0
  apply (purges now) s = purge now s

  pub apply_all : List Op → CsrfStore → CsrfStore
  apply_all [] s = s
  apply_all (op ∷ ops) s = apply_all ops (apply op s)

  pub apply-IsMap : (op : Op) (s : CsrfStore) → IsMap s.tokens → IsMap (apply op s).tokens
  unfolding apply set_csrf_token purge
  apply-IsMap (mints t now) s m = insert-IsMap (hash t) (now + s.max_age) s.tokens m
  apply-IsMap (checks t now) s m = validate-IsMap t now s m
  apply-IsMap (purges now) s m = retain-IsMap (λ x. not (ltb x now)) s.tokens m

  -- The token is not handed out again.
  abbrev pub NotMinted : Text → Op → Type 0
  NotMinted token (mints t now) = (hash t == hash token) ≡ false
  NotMinted token (checks t now) = Unit {0}
  NotMinted token (purges now) = Unit {0}

  absent_stays :
      (token : Text) (op : Op) (s : CsrfStore)
      → IsMap s.tokens
      → NotMinted token op
      → lookup (hash token) s.tokens ≡ none
      → lookup (hash token) (apply op s).tokens ≡ none
  unfolding apply set_csrf_token validate_csrf_token purge
  absent_stays token (mints t now) s m f h =
      ground (arith, lookup-insert (hash t) (hash token) (now + s.max_age) s.tokens)
  absent_stays token (checks t now) s m f h =
      ground (arith, lookup-delete (hash t) (hash token) s.tokens m)
  absent_stays token (purges now) s m f h =
      ground (arith, lookup-retain (λ (x : ℕ). not (ltb x now)) (hash token) s.tokens m)

  absent_stays-All :
      (token : Text) (ops : List Op) (s : CsrfStore)
      → IsMap s.tokens
      → All (NotMinted token) ops
      → lookup (hash token) s.tokens ≡ none
      → lookup (hash token) (apply_all ops s).tokens ≡ none
  unfolding apply_all
  absent_stays-All token [] s m a h = h
  absent_stays-All token (op ∷ ops) s m a h =
      absent_stays-All token ops (apply op s) (apply-IsMap op s m) a.1
        (absent_stays token op s m a.0 h)

  spent :
      (token : Text) (now : ℕ) (s : CsrfStore)
      → IsMap s.tokens
      → lookup (hash token) (validate_csrf_token hash token now s).0.tokens ≡ none
  unfolding validate_csrf_token
  spent token now s m = ground (
    arith,
    lookup-delete (hash token) (hash token) s.tokens m,
    text_beq_iff (hash token) (hash token),
  )

  -- Once a token has been presented it is never accepted again: whatever is handed out, checked and
  -- purged afterwards, as long as no token of the same hash is handed out.
  pub validate_once :
      (token : Text) (now later : ℕ) (ops : List Op) (s : CsrfStore)
      → IsMap s.tokens
      → All (NotMinted token) ops
      → (validate_csrf_token hash token later
          (apply_all ops (validate_csrf_token hash token now s).0)).1
        ≡ false
  unfolding validate_csrf_token
  validate_once token now later ops s m a = ground (
    arith,
    absent_stays-All token ops (validate_csrf_token hash token now s).0
        (validate-IsMap token now s m) a (spent token now s m),
  )

  -- Nothing presents or hands out the token, and purges come no later than `until`.
  abbrev pub Spares : Text → ℕ → Op → Type 0
  Spares token until (mints t now) = (hash t == hash token) ≡ false
  Spares token until (checks t now) = (hash t == hash token) ≡ false
  Spares token until (purges now) = now ≤ until

  spared :
      (token : Text) (expiry : ℕ) (op : Op) (s : CsrfStore)
      → IsMap s.tokens
      → Spares token expiry op
      → lookup (hash token) s.tokens ≡ some expiry
      → lookup (hash token) (apply op s).tokens ≡ some expiry
  unfolding apply set_csrf_token validate_csrf_token purge
  spared token expiry (mints t now) s m f h =
      ground (arith, lookup-insert (hash t) (hash token) (now + s.max_age) s.tokens)
  spared token expiry (checks t now) s m f h =
      ground (arith, lookup-delete (hash t) (hash token) s.tokens m)
  spared token expiry (purges now) s m f h =
      ground (arith, lookup-retain (λ (x : ℕ). not (ltb x now)) (hash token) s.tokens m)

  spared-All :
      (token : Text) (expiry : ℕ) (ops : List Op) (s : CsrfStore)
      → IsMap s.tokens
      → All (Spares token expiry) ops
      → lookup (hash token) s.tokens ≡ some expiry
      → lookup (hash token) (apply_all ops s).tokens ≡ some expiry
  unfolding apply_all
  spared-All token expiry [] s m a h = h
  spared-All token expiry (op ∷ ops) s m a h =
      spared-All token expiry ops (apply op s) (apply-IsMap op s m) a.1
        (spared token expiry op s m a.0 h)

  -- A token that was handed out at `start` is accepted at a later time exactly if that is no later
  -- than `maxAge` after `start`, whatever happens to other tokens meanwhile and whenever expired
  -- ones are purged up to the end of its life.
  pub validate-set_csrf_token :
      (token : Text) (start now : ℕ) (ops : List Op) (s : CsrfStore)
      → IsMap s.tokens
      → All (Spares token (start + s.max_age)) ops
      → (validate_csrf_token hash token now (apply_all ops (set_csrf_token hash token start s))).1
        ≡ not (ltb (start + s.max_age) now)
  unfolding validate_csrf_token
  validate-set_csrf_token token start now ops s m a = ground (arith, stored)
    where
      stored :
          lookup (hash token) (apply_all ops (set_csrf_token hash token start s)).tokens
          ≡ some (start + s.max_age)
      stored =
          spared-All token (start + s.max_age) ops (set_csrf_token hash token start s)
            (unfold set_csrf_token in insert-IsMap (hash token) (start + s.max_age) s.tokens m) a
            (unfold set_csrf_token in
              ground (
                arith,
                lookup-insert (hash token) (hash token) (start + s.max_age) s.tokens,
                text_beq_iff (hash token) (hash token),
              ))

  -- A request passes the middleware exactly if it carries a Bearer token, or uses GET, HEAD or
  -- OPTIONS, or presents a nonempty CSRF token that is in the store and has not expired.
  pub csrf_middleware_passes :
      (r : Request) (fresh : Text) (now : ℕ) (s : CsrfStore)
      → ((csrf_middleware hash r fresh now s).1 ≡ pass fresh) ↔ (
          (has_prefix r.authorization (codes "Bearer ") ≡ true)
          ⊎ (is_safe_method r.method ≡ true)
          ⊎ ((r.csrf_token ≢ [])
              × (expiry : ℕ) × (lookup (hash r.csrf_token) s.tokens ≡ some expiry)
              × (now ≤ expiry)))
  unfolding csrf_middleware validate_csrf_token
  csrf_middleware_passes r fresh now s = (
    λ h. ground (arith, text_beq_iff r.csrf_token []),
    λ h. ground (arith, text_beq_iff r.csrf_token []),
  )
