-- ===== src/Alerts/Overlap.antt =====
-- Calls of `CreateAlert` at the same time (backend/alerts/engine.go): the count and the insertion of a
-- call are two statements, and those of different calls interleave.
use seagles.Common.{
  ℕ, ◌≤◌, ◌≡◌, refl, inl, inr, Bool, true, false, ◌&&◌, List, [], ◌∷◌, ◌++◌, arith, ◌==◌,
  if◌then◌else◌, any, All, Bool-cases,
}
use mathlib.Core.Path.{subst}
use seagles.Text.{text_eq}
use seagles.Alerts.{
  Alert, AlertRequest, Faults, is_recent, count_alerts, new_alert, insert_alert, acknowledge,
}
use seagles.Alerts.Dedup.{Spaced, none_recent, acknowledge-Spaced}

-- A call that has counted, at this time, and not yet inserted.
pub record Call : Type 0 where
  pub request : AlertRequest
  pub counted_at : ℕ

pub record System : Type 0 where
  pub alerts : List Alert
  pub calls : List Call

abbrev pub same_key : AlertRequest → AlertRequest → Bool
same_key a b = a.device_id == b.device_id && a.alert_type == b.alert_type

-- A statement of some call, or an acknowledgement. A count does not fail; an insertion comes no
-- earlier than the call's count, and if it succeeds no other call of the same device and type has
-- counted and not yet inserted.
pub data Step : System → System → Type 0 where
  counts :
      (s : System) (f : Faults) (req : AlertRequest) (now : ℕ)
      → f.count ≡ false
      → Step s (
          if count_alerts f req now s.alerts
          then record s { calls = record { request = req; counted_at = now } ∷ s.calls }
          else s)
  inserts :
      (s : System) (f : Faults) (now : ℕ) (before after : List Call) (c : Call)
      → s.calls ≡ before ++ (c ∷ after)
      → c.counted_at ≤ now
      → (f.insert ≡ false → All (λ d. same_key c.request d.request ≡ false) (before ++ after))
      → Step s
          (record { alerts = (insert_alert f c.request now s.alerts).0; calls = before ++ after })
  acknowledges :
      (s : System) (p : Alert → Bool) → Step s (record s { alerts = acknowledge p s.alerts })

pub data Reach (s : System) : System → Type 0 where
  here : Reach s s
  next : {t u : System} → Reach s t → Step t u → Reach s u

-- No open alert of its device and type is younger than a day at the time of a call's count.
abbrev pub IsClear : List Alert → Call → Type 0
IsClear l c = any (is_recent c.request c.counted_at) l ≡ false

pub record Inv (s : System) : Type 0 where
  pub spaced : Spaced s.alerts
  pub clear : All (IsClear s.alerts) s.calls

not_recent_later :
    (req : AlertRequest) (t now : ℕ) (l : List Alert)
    → t ≤ now
    → any (is_recent req t) l ≡ false
    → any (is_recent req now) l ≡ false
not_recent_later req t now [] k h = refl
not_recent_later req t now (a ∷ l) k h =
    ground (arith, k, h, not_recent_later req t now l k (ground (arith, h)))

not_recent_acknowledged :
    (req : AlertRequest) (t : ℕ) (p : Alert → Bool) (l : List Alert)
    → any (is_recent req t) l ≡ false
    → any (is_recent req t) (acknowledge p l) ≡ false
unfolding acknowledge
not_recent_acknowledged req t p [] h = refl
not_recent_acknowledged req t p (a ∷ l) h =
    ground (arith, h, not_recent_acknowledged req t p l (ground (arith, h)))

all_acknowledged :
    (p : Alert → Bool) (l : List Alert) (cs : List Call)
    → All (IsClear l) cs
    → All (IsClear (acknowledge p l)) cs
all_acknowledged p l [] h = tt
all_acknowledged p l (c ∷ cs) h =
    (not_recent_acknowledged c.request c.counted_at p l h.0, all_acknowledged p l cs h.1)

-- An alert of another device or type is not counted.
other_key :
    (req : AlertRequest) (now : ℕ) (l : List Alert) (c : Call)
    → same_key req c.request ≡ false
    → IsClear l c
    → IsClear (new_alert req now ∷ l) c
other_key req now l c k h = ground (arith, k, h)

all_other_key :
    (req : AlertRequest) (now : ℕ) (l : List Alert) (cs : List Call)
    → All (λ d. same_key req d.request ≡ false) cs
    → All (IsClear l) cs
    → All (IsClear (new_alert req now ∷ l)) cs
all_other_key req now l [] k h = tt
all_other_key req now l (c ∷ cs) k h =
    (other_key req now l c k.0 h.0, all_other_key req now l cs k.1 h.1)

all-middle :
    (P : Call → Type 0) (before after : List Call) (c : Call)
    → All P (before ++ (c ∷ after))
    → P c × All P (before ++ after)
all-middle P [] after c h = h
all-middle P (b ∷ before) after c h = let (x, y) = all-middle P before after c h.1 in (x, (h.0, y))

Step-Inv : {s t : System} → Step s t → Inv s → Inv t
Step-Inv (counts s f req now k) v = elim (Bool-cases (any (is_recent req now) s.alerts)) [
  | inl e ↦ rw (k, e) v
  | inr e ↦ rw (k, e) (record { spaced = v.spaced; clear = (e, v.clear) })
]
Step-Inv (inserts s f now before after c q k o) v =
    let (x, y) =
      all-middle (IsClear s.alerts) before after c (subst (All (IsClear s.alerts)) q v.clear) in
    elim (Bool-cases f.insert) [
      | inl e ↦ rw e (record { spaced = v.spaced; clear = y })
      | inr e ↦ rw e (record {
        spaced = (
          none_recent c.request now (new_alert c.request now) s.alerts refl refl refl
              (not_recent_later c.request c.counted_at now s.alerts k x),
          v.spaced,
        );
        clear = all_other_key c.request now s.alerts (before ++ after) (o e) y;
      })
    ]
Step-Inv (acknowledges s p) v = record {
  spaced = acknowledge-Spaced p s.alerts v.spaced;
  clear = all_acknowledged p s.alerts s.calls v.clear;
}

-- Whatever the interleaving of the counts and insertions of any number of calls and of
-- acknowledgements, as long as no count fails, no insertion is dated before its call's count, and
-- none succeeds while another call of the same device and type is between its count and its
-- insertion: open alerts of one device and one type stay a day apart, and for each call that has
-- counted and not yet inserted no open alert of its device and type is less than a day old at the
-- time of its count.
pub Reach-Inv : {s t : System} → Inv s → Reach s t → Inv t
Reach-Inv v here = v
Reach-Inv v (next r st) = Step-Inv st (Reach-Inv v r)

inserted_twice :
    (f : Faults) (req : AlertRequest) (now : ℕ) (l : List Alert)
    → f.insert ≡ false
    → (insert_alert f req now (insert_alert f req now l).0).0
      ≡ new_alert req now ∷ new_alert req now ∷ l
inserted_twice f req now l e = rw e refl

-- Two calls of one device and type that both count before either of them inserts, which nothing in
-- the program prevents, leave two open alerts of the same age.
pub racing_calls_repeat :
    (f : Faults) (req : AlertRequest) (now : ℕ) (l : List Alert)
    → count_alerts f req now l ≡ true
    → f.insert ≡ false
    → ¬ Spaced (insert_alert f req now (insert_alert f req now l).0).0
racing_calls_repeat f req now l c e s =
    let twice = subst Spaced (inserted_twice f req now l e) s in
    absurd (omega (arith, twice.0.0 (refl, refl, refl, refl)))
