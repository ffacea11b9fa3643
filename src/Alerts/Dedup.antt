-- ===== src/Alerts/Dedup.antt =====
-- Alerts are not repeated (backend/alerts/engine.go).
use seagles.Common.{
  Option, none, some, ℕ, ◌+◌, ◌≤◌, ◌≡◌, refl, inl, inr, Bool, true, false, List, [], ◌∷◌, arith,
  if◌then◌else◌, any, All, Bool-cases,
}
use seagles.Text.{Text, text_eq, text_beq_iff}
use seagles.Alerts.{
  new_alert, FirmwareRow, check_firmware_overdue, alert_for, alert_all, review_request,
  critical_request, pending_devices, Tick, monitor_tick, check_unresolved_critical, Alert,
  AlertRequest, Faults, day, is_recent, create_alert, DeviceRow, check_offline_devices, acknowledge,
  offline_request,
}

-- Both alerts are open, and of one device and one type.
abbrev pub Same : Alert → Alert → Type 0
Same a b =
    (a.device_id ≡ b.device_id)
    × (a.alert_type ≡ b.alert_type)
    × (a.is_acknowledged ≡ false)
    × (b.is_acknowledged ≡ false)

abbrev pub Apart : Alert → Alert → Type 0
Apart a b = Same a b → b.triggered_at + day ≤ a.triggered_at

-- Newest first, open alerts of one device and type are a day apart.
abbrev pub Spaced : List Alert → Type 0
Spaced [] = Unit {0}
Spaced (a ∷ l) = All (Apart a) l × Spaced l

pub none_recent :
    (req : AlertRequest) (now : ℕ) (a : Alert) (l : List Alert)
    → a.device_id ≡ req.device_id
    → a.alert_type ≡ req.alert_type
    → a.triggered_at ≡ now
    → any (is_recent req now) l ≡ false
    → All (Apart a) l
none_recent req now a [] d t n h = tt
none_recent req now a (b ∷ l) d t n h = (
  λ s. ground (
    arith,
    d,
    t,
    n,
    h,
    s,
    text_beq_iff b.device_id req.device_id,
    text_beq_iff b.alert_type req.alert_type,
  ),
  none_recent req now a l d t n (ground (arith, h)),
)

pub create_alert-Spaced :
    (f : Faults) (req : AlertRequest) (now : ℕ) (l : List Alert)
    → f.count ≡ false
    → Spaced l
    → Spaced (create_alert f req now l).0
unfolding create_alert
create_alert-Spaced f req now l c s = elim (Bool-cases (any (is_recent req now) l)) [
  | inl e ↦ ground (arith, c, e, s)
  | inr e ↦ elim (Bool-cases f.insert) [
    | inl i ↦ ground (arith, c, e, i, s)
    | inr i ↦ rw (c, e, i) (none_recent req now (new_alert req now) l refl refl refl e, s)
  ]
]

ack_Apart :
    (p : Alert → Bool) (a : Alert) (l : List Alert)
    → All (Apart a) l
    → All (Apart (if p a then record a { is_acknowledged = true } else a)) (acknowledge p l)
unfolding acknowledge
ack_Apart p a [] h = tt
ack_Apart p a (b ∷ l) h = (λ s. ground (arith, s, h.0), ack_Apart p a l h.1)

pub acknowledge-Spaced : (p : Alert → Bool) (l : List Alert) → Spaced l → Spaced (acknowledge p l)
unfolding acknowledge
acknowledge-Spaced p [] s = tt
acknowledge-Spaced p (a ∷ l) s =
    (unfold acknowledge in ack_Apart p a l s.0, acknowledge-Spaced p l s.1)

check_offline_devices-Spaced :
    (f : Text → Faults) (now : ℕ) (ds : List DeviceRow) (l : List Alert)
    → ((id : Text) → (f id).count ≡ false)
    → Spaced l
    → Spaced (check_offline_devices f now ds l)
unfolding check_offline_devices
check_offline_devices-Spaced f now [] l c s = s
check_offline_devices-Spaced f now (d ∷ ds) l c s =
    check_offline_devices-Spaced f now ds _ c
      (ground (arith, s, create_alert-Spaced (f d.id) (offline_request d) now l (c d.id)))

alert_for-Spaced :
    (f : Text → Faults) (now : ℕ) (req : Text → AlertRequest) (id : Option Text) (l : List Alert)
    → ((i : Text) → (f i).count ≡ false)
    → Spaced l
    → Spaced (alert_for f now req id l)
alert_for-Spaced f now req none l c s = s
alert_for-Spaced f now req (some i) l c s = create_alert-Spaced (f i) (req i) now l (c i) s

check_firmware_overdue-Spaced :
    (f : Text → Faults) (now : ℕ) (rs : List FirmwareRow) (l : List Alert)
    → ((i : Text) → (f i).count ≡ false)
    → Spaced l
    → Spaced (check_firmware_overdue f now rs l)
unfolding check_firmware_overdue
check_firmware_overdue-Spaced f now [] l c s = s
check_firmware_overdue-Spaced f now (r ∷ rs) l c s =
    check_firmware_overdue-Spaced f now rs _ c
      (ground (arith, s, alert_for-Spaced f now review_request r.device_id l c s))

alert_all-Spaced :
    (f : Text → Faults) (now : ℕ) (req : Text → AlertRequest) (ids : List (Option Text))
    (l : List Alert)
    → ((i : Text) → (f i).count ≡ false)
    → Spaced l
    → Spaced (alert_all f now req ids l)
unfolding alert_all
alert_all-Spaced f now req [] l c s = s
alert_all-Spaced f now req (id ∷ ids) l c s =
    alert_all-Spaced f now req ids _ c (alert_for-Spaced f now req id l c s)

monitor_tick-Spaced :
    (t : Tick) (l : List Alert)
    → ((i : Text) → (t.faults i).count ≡ false)
    → Spaced l
    → Spaced (monitor_tick t l)
unfolding monitor_tick check_unresolved_critical
monitor_tick-Spaced t l c s =
    alert_all-Spaced t.faults t.critical_at critical_request
      (pending_devices t.critical_at t.vulnerabilities) _ c
      (check_firmware_overdue-Spaced t.faults t.overdue_at t.firmware _ c
        (check_offline_devices-Spaced t.faults t.offline_at t.devices l c s))

-- What happens to the alerts: one is asked for, the monitor has a tick, an operator acknowledges
-- some.
pub data Event : Type 0 where
  asks : Faults → AlertRequest → ℕ → Event
  monitors : Tick → Event
  acknowledges : (Alert → Bool) → Event

pub happen : Event → List Alert → List Alert
happen (asks f req now) l = (create_alert f req now l).0
happen (monitors t) l = monitor_tick t l
happen (acknowledges p) l = acknowledge p l

-- The count of recent alerts does not fail.
abbrev pub Counts : Event → Type 0
Counts (asks f req now) = f.count ≡ false
Counts (monitors t) = (id : Text) → (t.faults id).count ≡ false
Counts (acknowledges p) = Unit {0}

pub history : List Event → List Alert → List Alert
history [] l = l
history (e ∷ es) l = history es (happen e l)

happen-Spaced : (e : Event) (l : List Alert) → Counts e → Spaced l → Spaced (happen e l)
unfolding happen
happen-Spaced (asks f req now) l c s = create_alert-Spaced f req now l c s
happen-Spaced (monitors t) l c s = monitor_tick-Spaced t l c s
happen-Spaced (acknowledges p) l c s = acknowledge-Spaced p l s

-- Open alerts of one device and one type that are a day apart stay so, and new ones are, after any
-- history of requests, ticks of the monitor and acknowledgements that come one after the other, in
-- which insertions may fail but the counts of the recent alerts do not.
pub history-Spaced :
    (es : List Event) (l : List Alert) → All Counts es → Spaced l → Spaced (history es l)
unfolding history
history-Spaced [] l c s = s
history-Spaced (e ∷ es) l c s = history-Spaced es (happen e l) c.1 (happen-Spaced e l c.0 s)
