-- ===== src/Alerts/Offline.antt =====
-- The monitor's alerts of devices that are not seen (backend/alerts/engine.go).
use seagles.Common.{ℕ, ◌≡◌, true, false, List, [], ◌∷◌, ◌++◌, arith, any}
use seagles.Text.{Text, text_eq, text_beq_iff}
use seagles.Alerts.{
  Alert, AlertRequest, Faults, is_recent, create_alert, DeviceRow, is_offline,
  check_offline_devices, offline_request,
}

recent_kept :
    (f : Faults) (req other : AlertRequest) (now : ℕ) (l : List Alert)
    → any (is_recent other now) l ≡ true
    → any (is_recent other now) (create_alert f req now l).0 ≡ true
unfolding create_alert
recent_kept f req other now l h = ground (arith, h)

recent_kept_all :
    (f : Text → Faults) (other : AlertRequest) (now : ℕ) (ds : List DeviceRow) (l : List Alert)
    → any (is_recent other now) l ≡ true
    → any (is_recent other now) (check_offline_devices f now ds l) ≡ true
unfolding check_offline_devices
recent_kept_all f other now [] l h = h
recent_kept_all f other now (d ∷ ds) l h =
    recent_kept_all f other now ds _
      (ground (arith, h, recent_kept (f d.id) (offline_request d) other now l h))

create_alert_recent :
    (f : Faults) (req : AlertRequest) (now : ℕ) (l : List Alert)
    → f.insert ≡ false
    → any (is_recent req now) (create_alert f req now l).0 ≡ true
unfolding create_alert
create_alert_recent f req now l i =
    ground (
      arith,
      i,
      text_beq_iff req.device_id req.device_id,
      text_beq_iff req.alert_type req.alert_type,
    )

-- After a round of the monitor, every active device that was not seen for more than half an hour,
-- and the insertion of whose alert does not fail, has an open alert of the last day that says so.
pub offline_alerted :
    (f : Text → Faults) (now : ℕ) (before : List DeviceRow) (d : DeviceRow) (after : List DeviceRow)
    (l : List Alert)
    → (f d.id).insert ≡ false
    → is_offline now d ≡ true
    → any
        (is_recent (offline_request d) now)
        (check_offline_devices f now (before ++ (d ∷ after)) l)
      ≡ true
unfolding check_offline_devices
offline_alerted f now [] d after l i h =
    recent_kept_all f (offline_request d) now after _
      (ground (arith, h, create_alert_recent (f d.id) (offline_request d) now l i))
offline_alerted f now (c ∷ before) d after l i h = offline_alerted f now before d after _ i h
