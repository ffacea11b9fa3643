-- ===== src/Blacklist/Revoked.antt =====
-- How long a revoked token stays on the list (backend/cache/blacklist.go).
use seagles.Common.{
  ℕ, ◌+◌, ◌-◌, ◌≤◌, ◌≡◌, refl, true, false, not, some, List, [], ◌∷◌, arith, ltb, ◌==◌,
  if◌then◌else◌, All,
}
use seagles.Dict.{
  lookup, IsMap, lookup-insert, lookup-delete, lookup-retain, insert-IsMap, delete-IsMap,
  retain-IsMap,
}
use seagles.Text.{Text, text_eq, text_beq_iff}
use seagles.Blacklist.{TokenBlacklist, add, remove, is_blacklisted, cleanup}

pub data Op : Type 0 where
  adds : Text → ℕ → Op
  removes : Text → Op
  cleans : ℕ → Op

pub apply : Op → TokenBlacklist → TokenBlacklist
apply (adds jti now) b = add jti now b
apply (removes jti) b = remove jti b
apply (cleans now) b = cleanup now b

pub apply_all : List Op → TokenBlacklist → TokenBlacklist
apply_all [] b = b
apply_all (op ∷ ops) b = apply_all ops (apply op b)

-- The operation runs in the time from `since` to `until`, and does not take `jti` off the list.
abbrev pub Within : Text → ℕ → ℕ → Op → Type 0
Within jti since until (adds j now) = since ≤ now
Within jti since until (removes j) = (j == jti) ≡ false
Within jti since until (cleans now) = now ≤ until

record Holds (jti : Text) (start ttl : ℕ) (b : TokenBlacklist) : Type 0 where
  is_map : IsMap b.entries
  ttl_eq : b.max_ttl ≡ ttl
  added_at : ℕ
  listed : lookup jti b.entries ≡ some added_at
  recent : start ≤ added_at

apply-Holds :
    (jti : Text) (start ttl : ℕ) (op : Op) (b : TokenBlacklist)
    → Within jti start (start + ttl) op
    → Holds jti start ttl b
    → Holds jti start ttl (apply op b)
unfolding apply add remove cleanup
apply-Holds jti start ttl (adds j now) b w h = record {
  is_map = insert-IsMap j now b.entries h.is_map;
  ttl_eq = h.ttl_eq;
  added_at = if j == jti then now else h.added_at;
  listed = ground (arith, lookup-insert j jti now b.entries, h.listed);
  recent = ground (arith, h.recent);
}
apply-Holds jti start ttl (removes j) b w h = record {
  is_map = delete-IsMap j b.entries h.is_map;
  ttl_eq = h.ttl_eq;
  added_at = h.added_at;
  listed = ground (arith, lookup-delete j jti b.entries h.is_map, h.listed);
  recent = h.recent;
}
apply-Holds jti start ttl (cleans now) b w h = record {
  is_map = retain-IsMap (λ a. not (ltb a (now - b.max_ttl))) b.entries h.is_map;
  ttl_eq = h.ttl_eq;
  added_at = h.added_at;
  listed = ground (
    arith,
    lookup-retain (λ (a : ℕ). not (ltb a (now - b.max_ttl))) jti b.entries h.is_map,
    h.listed,
    h.recent,
    h.ttl_eq,
  );
  recent = h.recent;
}

apply_all-Holds :
    (jti : Text) (start ttl : ℕ) (ops : List Op) (b : TokenBlacklist)
    → All (Within jti start (start + ttl)) ops
    → Holds jti start ttl b
    → Holds jti start ttl (apply_all ops b)
unfolding apply_all
apply_all-Holds jti start ttl [] b w h = h
apply_all-Holds jti start ttl (op ∷ ops) b w h =
    apply_all-Holds jti start ttl ops (apply op b) w.1 (apply-Holds jti start ttl op b w.0 h)

-- A token that is put on the list at `start` is still on it after any operations up to `maxTTL`
-- later: other tokens and the token itself added again, other tokens removed, cleanups.
pub add-stays :
    (jti : Text) (start : ℕ) (ops : List Op) (b : TokenBlacklist)
    → IsMap b.entries
    → All (Within jti start (start + b.max_ttl)) ops
    → is_blacklisted jti (apply_all ops (add jti start b)) ≡ true
unfolding is_blacklisted
add-stays jti start ops b m w = ground (arith, held.listed)
  where
    held : Holds jti start b.max_ttl (apply_all ops (add jti start b))
    held = apply_all-Holds jti start b.max_ttl ops (add jti start b) w (
        unfold add in
        record {
          is_map = insert-IsMap jti start b.entries m;
          ttl_eq = refl;
          added_at = start;
          listed = ground (arith, lookup-insert jti jti start b.entries, text_beq_iff jti jti);
          recent = ground arith;
        })
