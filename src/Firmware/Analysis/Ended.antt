-- ===== src/Firmware/Analysis/Ended.antt =====
-- How an analysis ends (backend/api/firmware.go).
use seagles.Common.{
  ℕ, ◌≡◌, ◌≤◌, ◌<◌, ◌⊎◌, refl, arith, true, Option, none, some, ◌==◌, if◌then◌else◌, Option-cases,
  inl, inr, Bool-cases,
}
use seagles.Dict.{lookup, lookup-update, applied}
use seagles.Text.{Text, codes, text_eq}
use seagles.Alerts.{Faults}
use seagles.Firmware.Analysis.{
  AnalysisRow, Db, Report, Reply, Updates, Job, accepted, run_analysis, request_fails, response,
}

-- The row that an analysis leaves, by the report that the analyzer gave.
abbrev pub ended : ℕ → Option Report → AnalysisRow → AnalysisRow
ended now none r = record r { analysis_status = codes "failed" }
ended now (some report) r = record r {
  analysis_status = codes "complete";
  analyzed_at = some now;
  entropy_score = some report.entropy_score;
}

-- The report that an answer of the analyzer counts for: a status of 2xx and a body that can be
-- decoded give one, everything else gives none.
pub data Verdict : Reply → Option Report → Type 0 where
  reported :
      (status : ℕ) (report : Report)
      → 200 ≤ status
      → status < 300
      → Verdict (response status (some report)) (some report)
  unanswered : Verdict request_fails none
  undecodable : (status : ℕ) → Verdict (response status none) none
  bad_status :
      (status : ℕ) (body : Option Report)
      → (status < 200) ⊎ (300 ≤ status)
      → Verdict (response status body) none

module _ (format_score : ℕ → Text) (f : Faults) (u : Updates) (now : ℕ) (job : Job) (db : Db)
    (id : Text) where
  ended_row :
      (reply : Reply) (o : Option Report)
      → accepted reply ≡ o
      → u.mark_failed ≡ true
      → u.mark_complete ≡ true
      → lookup id (run_analysis format_score f u now reply job db).firmware ≡ (
          if job.id == id
          then applied (ended now o) (lookup id db.firmware)
          else lookup id db.firmware)
  unfolding run_analysis
  ended_row reply none e a b =
      rw (run_analysis, e, a) (lookup-update job.id id (ended now none) db.firmware)
  ended_row reply (some report) e a b = elim (Option-cases job.device_id) [
    | inl g ↦
        rw (run_analysis, e, b, g) (lookup-update job.id id (ended now (some report)) db.firmware)
    | inr (d, g) ↦ elim (Bool-cases report.suspicious) [
      | inl s ↦
          rw (run_analysis, e, b, g, s)
            (lookup-update job.id id (ended now (some report)) db.firmware)
      | inr s ↦
          rw (run_analysis, e, b, g, s)
            (lookup-update job.id id (ended now (some report)) db.firmware)
    ]
  ]

  accepted-Verdict : {reply : Reply} {o : Option Report} → Verdict reply o → accepted reply ≡ o
  unfolding accepted
  accepted-Verdict (reported status report l h) = ground (arith, l, h)
  accepted-Verdict unanswered = refl
  accepted-Verdict (undecodable status) = ground arith
  accepted-Verdict (bad_status status body h) = ground (arith, h)

  -- If the updates of the row succeed, an analysis that was started ends: the row of its firmware
  -- file is marked `complete`, with the score and the time, if the analyzer answered with a status
  -- of 2xx and a report that can be decoded, and `failed` otherwise, and no other row changes.
  pub analysis_ends :
      (reply : Reply) (o : Option Report)
      → Verdict reply o
      → u.mark_failed ≡ true
      → u.mark_complete ≡ true
      → lookup id (run_analysis format_score f u now reply job db).firmware ≡ (
          if job.id == id
          then applied (ended now o) (lookup id db.firmware)
          else lookup id db.firmware)
  analysis_ends reply o v a b = ended_row reply o (accepted-Verdict v) a b
