-- ===== src/Scans/Network.antt =====
-- `TriggerDeviceScanHandler` and `NetworkScanHandler` of backend/api/scans.go, up to the goroutine of
-- the first, which is `run_device_scan`, and with the goroutine of the second.
pub mod Seen
use seagles.Common.{
  ℕ, Bool, true, false, not, Option, none, some, List, [], ◌∷◌, ◌++◌, ◌==◌, if◌then◌else◌,
}
use seagles.Dict.{lookup, insert, update}
use seagles.Text.{Text, codes, text_eq, trim_space}
use seagles.Alerts.{Alert, AlertRequest, Faults, create_alert}
use seagles.Scans.{ScanRow, Db, Target}

pub record TriggerScanRequest : Type 0 where
  pub profile_id : Text
  pub scan_type : Text

-- No body, one that is refused, or a request.
pub data Body : Type 0 where
  no_body bad_body : Body
  body : TriggerScanRequest → Body

pub data Answer : Type 0 where
  bad_id not_found query_failed bad_request insert_failed : Answer
  running : Text → Answer

abbrev scan_type_of : Body → Text
scan_type_of no_body = codes "full"
scan_type_of bad_body = codes "full"
scan_type_of (body r) = if r.scan_type == [] then codes "full" else r.scan_type

abbrev is_bad : Body → Bool
is_bad bad_body = true
is_bad _ = false

-- The result has the target of the goroutine, if it is started.
unfoldable pub trigger_device_scan_handler :
    (is_uuid : Text → Bool)
    → (query_fails : Bool) → Body
    → (new_id : Option Text) → Text
    → Db
    → Db × Answer × Option Target
trigger_device_scan_handler is_uuid query_fails req new_id device_id db =
    if is_uuid device_id
    then (if query_fails then (db, query_failed, none) else (elim (lookup device_id db.devices) [
      | none ↦ (db, not_found, none)
      | some device ↦ if is_bad req then (db, bad_request, none) else (elim new_id [
        | none ↦ (db, insert_failed, none)
        | some id ↦ (
          record db {
            scans =
                insert id
                  (record {
                    device_id = device_id;
                    status = codes "running";
                    scan_type = scan_type_of req;
                    completed_at = none;
                    open_ports = none;
                    services = none;
                  })
                  db.scans;
          },
          running id,
          some (record { device_id = device_id; scan_id = id; ip = device.ip_address }),
        )
      ])
    ]))
    else (db, bad_id, none)

-- The devices by their addresses, which are unique.
pub record Known : Type 0 where
  pub id : Text
  pub last_seen : ℕ

pub record Inventory : Type 0 where
  pub devices : List (Text × Known)
  pub alerts : List Alert

-- What the database answers for one address: `new_id` is the id of an inserted row, or none where
-- the statement fails.
pub record Statements : Type 0 where
  pub select_fails : Text → Bool
  pub update_fails : Text → Bool
  pub new_id : Text → Option Text
  pub alert_faults : Text → Faults
  pub now : Text → ℕ

abbrev pub new_device_alert : Text → Text → AlertRequest
new_device_alert id ip = record {
  device_id = id;
  alert_type = codes "new_device";
  severity = codes "high";
  title = codes "New device discovered: " ++ ip;
  description = [];
  metadata = none;
}

abbrev pub seen : ℕ → Known → Known
seen now d = record d { last_seen = now }

unfoldable pub add_device : Statements → Text → Inventory → Inventory
add_device q ip inv = elim (q.new_id ip) [
  | none ↦ inv
  | some id ↦ record {
    devices = insert ip (record { id = id; last_seen = q.now ip }) inv.devices;
    alerts = (create_alert (q.alert_faults ip) (new_device_alert id ip) (q.now ip) inv.alerts).0;
  }
]

-- One round of the loop over the hosts that answered.
unfoldable pub visit_host : Statements → (Text → Bool) → Text → Inventory → Inventory
unfolding add_device
visit_host q safelisted ip inv =
    if safelisted ip
    then inv
    else (if q.select_fails ip then inv else (elim (lookup ip inv.devices) [
      | none ↦ add_device q ip inv
      | some d ↦
          if q.update_fails ip
          then inv
          else record inv { devices = update ip (seen (q.now ip)) inv.devices }
    ]))

unfoldable pub visit_hosts : Statements → (Text → Bool) → List Text → Inventory → Inventory
unfolding visit_host
visit_hosts q safelisted [] inv = inv
visit_hosts q safelisted (ip ∷ ips) inv =
    visit_hosts q safelisted ips (visit_host q safelisted ip inv)

-- `hosts` is the result of `DiscoverHosts`.
unfoldable pub network_scan :
    Statements → (Text → Bool) → Option (List Text) → Inventory → Inventory
unfolding visit_hosts
network_scan q safelisted none inv = inv
network_scan q safelisted (some hosts) inv = visit_hosts q safelisted hosts inv
