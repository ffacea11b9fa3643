-- ===== src/Auth/Sessions/Revoke.antt =====
-- What the statements on `refresh_tokens` do to the sessions that can be found.
use seagles.Common.{
  ℕ, ◌≡◌, refl, ◌≢◌, inl, inr, false, ◌&&◌, none, some, List, [], ◌∷◌, ◌++◌, arith, ◌==◌,
  if◌then◌else◌, Bool-cases, Option-cases,
}
use seagles.Text.{Text, text_eq, text_beq_iff}
use seagles.Auth.Sessions.{
  UserRow, RefreshRow, active_user, is_live, or_else, find_session, revoke_all, revoke_hash,
  has_hash,
}

pub active_user_id :
    (uid : Text) (us : List UserRow) (u : UserRow) → active_user uid us ≡ some u → u.id ≡ uid
unfolding active_user
active_user_id uid [] u h = cc
active_user_id uid (v ∷ us) u h = elim (Bool-cases (v.id == uid && v.is_active)) [
  | inl e ↦ ground (arith, h, e, text_beq_iff v.id uid)
  | inr e ↦ active_user_id uid us u (ground (arith, h, e))
]

-- No token of a hash that was revoked is found.
pub find_session-revoke_hash :
    (h : Text) (now : ℕ) (us : List UserRow) (rs : List RefreshRow)
    → find_session h now us (revoke_hash h rs) ≡ none
unfolding find_session revoke_hash
find_session-revoke_hash h now us [] = refl
find_session-revoke_hash h now us (r ∷ rs) = ground (arith, find_session-revoke_hash h now us rs)

-- Revoking one hash leaves the sessions of the others.
pub find_session-revoke_hash_ne :
    (h k : Text) (now : ℕ) (us : List UserRow) (rs : List RefreshRow)
    → h ≢ k
    → find_session k now us (revoke_hash h rs) ≡ find_session k now us rs
unfolding find_session revoke_hash
find_session-revoke_hash_ne h k now us [] n = refl
find_session-revoke_hash_ne h k now us (r ∷ rs) n = ground (
  arith,
  text_beq_iff r.token_hash h,
  text_beq_iff r.token_hash k,
  find_session-revoke_hash_ne h k now us rs n,
)

-- After a user's tokens were revoked no session of that user is found.
pub find_session-revoke_all :
    (uid h : Text) (now : ℕ) (us : List UserRow) (rs : List RefreshRow) (u : UserRow)
    → find_session h now us (revoke_all uid rs) ≡ some u
    → u.id ≢ uid
unfolding find_session revoke_all
find_session-revoke_all uid h now us [] u e = λ q. cc
find_session-revoke_all uid h now us (r ∷ rs) u e = elim (Bool-cases (r.user_id == uid)) [
  | inl q ↦ find_session-revoke_all uid h now us rs u (ground (arith, e, q))
  | inr q ↦ elim (Bool-cases (is_live h now r)) [
    | inl l ↦ elim (Option-cases (active_user r.user_id us)) [
      | inl a ↦ find_session-revoke_all uid h now us rs u (ground (arith, e, q, l, a))
      | inr (v, a) ↦ λ p.
          ground (arith, e, q, l, a, p, active_user_id r.user_id us v a, text_beq_iff r.user_id uid)
    ]
    | inr l ↦ find_session-revoke_all uid h now us rs u (ground (arith, e, q, l))
  ]
]

-- The sessions of other users stay.
pub find_session-revoke_all_ne :
    (uid h : Text) (now : ℕ) (us : List UserRow) (rs : List RefreshRow) (u : UserRow)
    → find_session h now us rs ≡ some u
    → u.id ≢ uid
    → find_session h now us (revoke_all uid rs) ≡ some u
unfolding find_session revoke_all
find_session-revoke_all_ne uid h now us [] u e n = cc
find_session-revoke_all_ne uid h now us (r ∷ rs) u e n = elim (Bool-cases (is_live h now r)) [
  | inl l ↦ elim (Option-cases (active_user r.user_id us)) [
    | inl a ↦
        ground
          (arith, e, l, a, find_session-revoke_all_ne uid h now us rs u (ground (arith, e, l, a)) n)
    | inr (v, a) ↦
        ground (arith, e, l, a, n, active_user_id r.user_id us v a, text_beq_iff r.user_id uid)
  ]
  | inr l ↦
      ground (arith, e, l, find_session-revoke_all_ne uid h now us rs u (ground (arith, e, l)) n)
]

pub find_session-append :
    (h : Text) (now : ℕ) (us : List UserRow) (rs : List RefreshRow) (r : RefreshRow)
    → find_session h now us (rs ++ r ∷ [])
      ≡ or_else
          (find_session h now us rs)
          (if is_live h now r then active_user r.user_id us else none)
unfolding find_session
find_session-append h now us [] r = ground arith
find_session-append h now us (s ∷ rs) r = ground (arith, find_session-append h now us rs r)

pub find_session_of_new :
    (h : Text) (now : ℕ) (us : List UserRow) (rs : List RefreshRow)
    → has_hash h rs ≡ false
    → find_session h now us rs ≡ none
unfolding find_session
find_session_of_new h now us [] e = refl
find_session_of_new h now us (r ∷ rs) e = ground (arith, find_session_of_new h now us rs)

pub active_user_found :
    (h : Text) (now : ℕ) (us : List UserRow) (rs : List RefreshRow) (u : UserRow)
    → find_session h now us rs ≡ some u
    → active_user u.id us ≡ some u
unfolding find_session
active_user_found h now us [] u e = cc
active_user_found h now us (r ∷ rs) u e = elim (Bool-cases (is_live h now r)) [
  | inl l ↦ elim (Option-cases (active_user r.user_id us)) [
    | inl a ↦ active_user_found h now us rs u (ground (arith, e, l, a))
    | inr (v, a) ↦ ground (arith, e, l, a, active_user_id r.user_id us v a)
  ]
  | inr l ↦ active_user_found h now us rs u (ground (arith, e, l))
]
