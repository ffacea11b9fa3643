-- ===== src/Firmware/Analysis.antt =====
-- `AnalyzeFirmwareHandler` of backend/api/firmware.go: `analyze_firmware_handler` is what runs
-- before the answer, `run_analysis` the goroutine that it starts. The answer of the analyzer and
-- whether the statements succeed are arguments; a float64 is its bit pattern.
pub mod Ended
use seagles.Common.{
  ℕ, Bool, true, false, not, ◌&&◌, ◌||◌, Option, none, some, List, [], ◌∷◌, ◌++◌, ltb, leb,
  if◌then◌else◌, length,
}
use seagles.Dict.{lookup, update}
use seagles.Text.{Text, codes, text_eq}
use seagles.Alerts.{Alert, AlertRequest, Faults, create_alert}

pub record AnalysisRow : Type 0 where
  pub device_id : Option Text
  pub analysis_status : Text
  pub analyzed_at : Option ℕ
  pub entropy_score : Option ℕ

pub record Db : Type 0 where
  pub firmware : List (Text × AnalysisRow)
  pub alerts : List Alert

pub record Report : Type 0 where
  pub entropy_score : ℕ
  pub suspicious : Bool

-- `request_fails` where no request can be made or no answer comes; an answer has a status and, if
-- its body can be decoded, a report.
pub data Reply : Type 0 where
  request_fails : Reply
  response : ℕ → Option Report → Reply

pub record Updates : Type 0 where
  pub mark_pending : Bool
  pub mark_failed : Bool
  pub mark_complete : Bool

pub data Answer : Type 0 where
  unavailable bad_id not_found query_failed started : Answer

abbrev with_status : Text → AnalysisRow → AnalysisRow
with_status status r = record r { analysis_status = status }

abbrev when : Bool → Text → (AnalysisRow → AnalysisRow) → Db → Db
when true id f db = record db { firmware = update id f db.firmware }
when false id f db = db

-- The goroutine works with the device id that the handler has read.
pub record Job : Type 0 where
  pub id : Text
  pub device_id : Option Text

unfoldable pub analyze_firmware_handler :
    (is_uuid : Text → Bool)
    → Text
    → (query_fails : Bool) → Updates
    → Text
    → Db
    → Db × Answer × Option Job
analyze_firmware_handler is_uuid token query_fails u id db =
    if ltb (length token) 32
    then (db, unavailable, none)
    else (if is_uuid id
        then (if query_fails then (db, query_failed, none) else (elim (lookup id db.firmware) [
          | none ↦ (db, not_found, none)
          | some row ↦ (
            when u.mark_pending id (with_status (codes "pending")) db,
            started,
            some (record { id = id; device_id = row.device_id }),
          )
        ]))
        else (db, bad_id, none))

-- The decoded report of an answer with a status of 2xx.
unfoldable pub accepted : Reply → Option Report
accepted request_fails = none
accepted (response status body) = if ltb status 200 || leb 300 status then none else body

abbrev complete : ℕ → ℕ → AnalysisRow → AnalysisRow
complete now score r = record r {
  analysis_status = codes "complete";
  analyzed_at = some now;
  entropy_score = some score;
}

module _ (format_score : ℕ → Text) where
  abbrev pub entropy_request : Text → ℕ → AlertRequest
  entropy_request device score = record {
    device_id = device;
    alert_type = codes "firmware_entropy";
    severity = codes "high";
    title = codes "High entropy firmware detected (score: " ++ (format_score score ++ codes ")");
    description = [];
    metadata = none;
  }

  abbrev raise : Faults → ℕ → Option Text → Report → Db → Db
  raise f now none report db = db
  raise f now (some device) report db =
      if report.suspicious
      then record db {
        alerts = (create_alert f (entropy_request device report.entropy_score) now db.alerts).0;
      }
      else db

  unfoldable pub run_analysis : Faults → Updates → ℕ → Reply → Job → Db → Db
  unfolding accepted
  run_analysis f u now reply job db = elim (accepted reply) [
    | none ↦ when u.mark_failed job.id (with_status (codes "failed")) db
    | some report ↦
        raise f now job.device_id report
          (when u.mark_complete job.id (complete now report.entropy_score) db)
  ]
