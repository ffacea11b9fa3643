-- ===== src/Alerts.antt =====
-- backend/alerts/engine.go: alerts, and the monitor that raises them. A statement that fails is an
-- argument, and a query that fails gives no row. The
-- webhooks that a new alert starts are left out: they run in goroutines of their own and do not touch
-- the rows that are modelled here.
pub mod Dedup
pub mod Overlap
pub mod Offline
pub mod Webhooks
use seagles.Common.{
  ℕ, ◌+◌, ◌-◌, ◌*◌, Bool, true, false, not, ◌&&◌, ◌||◌, Option, none, some, List, [], ◌∷◌, ◌++◌,
  ltb, ◌==◌, if◌then◌else◌, any, map,
}
use seagles.Clock.{hour, minute}
use seagles.Text.{Text, codes, text_eq}

pub record Alert : Type 0 where
  pub device_id : Text
  pub alert_type : Text
  pub severity : Text
  pub title : Text
  pub description : Text
  pub metadata : Text
  pub triggered_at : ℕ
  pub is_acknowledged : Bool

pub record AlertRequest : Type 0 where
  pub device_id : Text
  pub alert_type : Text
  pub severity : Text
  pub title : Text
  pub description : Text
  pub metadata : Option Text

abbrev pub day : ℕ
day = 24 * hour

-- The rows that the query of `CreateAlert` counts.
abbrev pub is_recent : AlertRequest → ℕ → Alert → Bool
is_recent req now a =
    a.device_id == req.device_id
    && (a.alert_type == req.alert_type && (not a.is_acknowledged && ltb now (a.triggered_at + day)))

pub record Faults : Type 0 where
  pub count : Bool
  pub insert : Bool

abbrev pub or_empty : Option Text → Text
or_empty none = codes "{}"
or_empty (some json) = json

-- `CreateAlert` is two statements, in no transaction and under no lock: the count, which says whether
-- to go on, and the insertion. The second part of a result is whether an error is returned.
abbrev pub count_alerts : Faults → AlertRequest → ℕ → List Alert → Bool
count_alerts f req now alerts = not (not f.count && any (is_recent req now) alerts)

abbrev pub new_alert : AlertRequest → ℕ → Alert
new_alert req now = record {
  device_id = req.device_id;
  alert_type = req.alert_type;
  severity = req.severity;
  title = req.title;
  description = req.description;
  metadata = or_empty req.metadata;
  triggered_at = now;
  is_acknowledged = false;
}

abbrev pub insert_alert : Faults → AlertRequest → ℕ → List Alert → List Alert × Bool
insert_alert f req now alerts =
    if f.insert then (alerts, true) else (new_alert req now ∷ alerts, false)

-- The whole of it, where no other writer comes in between.
unfoldable pub create_alert : Faults → AlertRequest → ℕ → List Alert → List Alert × Bool
create_alert f req now alerts =
    if count_alerts f req now alerts then insert_alert f req now alerts else (alerts, false)

pub record DeviceRow : Type 0 where
  pub id : Text
  pub ip_address : Text
  pub is_active : Bool
  pub last_seen : ℕ

abbrev pub offline_request : DeviceRow → AlertRequest
offline_request d = record {
  device_id = d.id;
  alert_type = codes "device_offline";
  severity = codes "medium";
  title = codes "Device offline: " ++ d.ip_address;
  description = codes "Device has not been seen for more than 30 minutes";
  metadata = none;
}

abbrev pub is_offline : ℕ → DeviceRow → Bool
is_offline now d = d.is_active && ltb (d.last_seen + 30 * minute) now

-- The loop over the rows of the query. The faults are those of one alert after the other.
unfoldable pub check_offline_devices :
    (Text → Faults) → ℕ → List DeviceRow → List Alert → List Alert
check_offline_devices f now [] alerts = alerts
check_offline_devices f now (d ∷ ds) alerts =
    check_offline_devices f now ds (
      if is_offline now d then (create_alert (f d.id) (offline_request d) now alerts).0 else alerts)

-- A row of firmware; a value that is NULL is `none`.
pub record FirmwareRow : Type 0 where
  pub device_id : Option Text
  pub analyzed_at : Option ℕ

abbrev pub review_request : Text → AlertRequest
review_request id = record {
  device_id = id;
  alert_type = codes "firmware_review_due";
  severity = codes "low";
  title = codes "Firmware analysis overdue";
  description = codes "Firmware has not been analyzed in 90+ days";
  metadata = none;
}

abbrev pub older_than : ℕ → ℕ → Option ℕ → Bool
older_than now age none = true
older_than now age (some t) = ltb (t + age) now

abbrev pub is_overdue : ℕ → FirmwareRow → Bool
is_overdue now r = older_than now (90 * day) r.analyzed_at

-- One row of a loop over device ids: a NULL is passed over.
abbrev pub alert_for :
    (Text → Faults) → ℕ → (Text → AlertRequest) → Option Text → List Alert → List Alert
alert_for f now req none alerts = alerts
alert_for f now req (some id) alerts = (create_alert (f id) (req id) now alerts).0

unfoldable pub check_firmware_overdue :
    (Text → Faults) → ℕ → List FirmwareRow → List Alert → List Alert
check_firmware_overdue f now [] alerts = alerts
check_firmware_overdue f now (r ∷ rs) alerts =
    check_firmware_overdue f now rs
      (if is_overdue now r then alert_for f now review_request r.device_id alerts else alerts)

-- A row of vulnerabilities.
pub record VulnerabilityRow : Type 0 where
  pub device_id : Option Text
  pub severity : Text
  pub is_resolved : Bool
  pub discovered_at : ℕ

abbrev pub critical_request : Text → AlertRequest
critical_request id = record {
  device_id = id;
  alert_type = codes "critical_vuln_unresolved";
  severity = codes "high";
  title = codes "Critical vulnerability unresolved for 7+ days";
  description = codes "A critical severity vulnerability has been open for more than 7 days";
  metadata = none;
}

abbrev pub is_pending : ℕ → VulnerabilityRow → Bool
is_pending now v =
    v.severity == codes "critical" && (not v.is_resolved && ltb (v.discovered_at + 7 * day) now)

abbrev same_id : Option Text → Option Text → Bool
same_id none none = true
same_id (some a) (some b) = a == b
same_id _ _ = false

-- SELECT DISTINCT
unfoldable pub pending_devices : ℕ → List VulnerabilityRow → List (Option Text)
pending_devices now [] = []
pending_devices now (v ∷ vs) =
    let rest = pending_devices now vs in
    if is_pending now v && not (any (same_id v.device_id) rest) then v.device_id ∷ rest else rest

unfoldable pub alert_all :
    (Text → Faults) → ℕ → (Text → AlertRequest) → List (Option Text) → List Alert → List Alert
alert_all f now req [] alerts = alerts
alert_all f now req (id ∷ ids) alerts = alert_all f now req ids (alert_for f now req id alerts)

unfoldable pub check_unresolved_critical :
    (Text → Faults) → ℕ → List VulnerabilityRow → List Alert → List Alert
unfolding alert_all pending_devices
check_unresolved_critical f now vs alerts =
    alert_all f now critical_request (pending_devices now vs) alerts

-- What the monitor finds at one tick, with the faults and the time of each of the three checks.
pub record Tick : Type 0 where
  pub faults : Text → Faults
  pub offline_at : ℕ
  pub devices : List DeviceRow
  pub overdue_at : ℕ
  pub firmware : List FirmwareRow
  pub critical_at : ℕ
  pub vulnerabilities : List VulnerabilityRow

-- One tick of `StartAlertMonitor`.
unfoldable pub monitor_tick : Tick → List Alert → List Alert
monitor_tick t alerts = check_unresolved_critical t.faults t.critical_at t.vulnerabilities (
    check_firmware_overdue t.faults t.overdue_at t.firmware
      (check_offline_devices t.faults t.offline_at t.devices alerts))

-- `AckAlertHandler` of backend/api/alerts.go on the rows that it matches.
unfoldable pub acknowledge : (Alert → Bool) → List Alert → List Alert
acknowledge p = map λ a. if p a then record a { is_acknowledged = true } else a
