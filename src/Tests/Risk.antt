-- ===== src/Tests/Risk.antt =====
-- The score of a device (backend/risk/scorer.go).
use seagles.Common.{◌≤◌, true, false, none, some, [], ◌∷◌, arith}
use seagles.Text.{codes}
use seagles.Risk.{RiskFactors, calculate_risk_score, severity_from_score, no_factors, Evidence}
use seagles.Risk.Score.{AtMost, rank, risk_mono}

abbrev camera : RiskFactors
camera = record no_factors { has_telnet = true; known_cve_count = 3 }

abbrev worse : RiskFactors
worse = record camera { has_default_creds = true; kev_match_count = 2 }

camera-AtMost : AtMost camera worse
camera-AtMost = ground arith

risk_mono_example :
    (calculate_risk_score camera ≤ calculate_risk_score worse)
    × (rank (severity_from_score (calculate_risk_score camera))
        ≤ rank (severity_from_score (calculate_risk_score worse)))
risk_mono_example = risk_mono camera worse camera-AtMost

abbrev evidence : Evidence
evidence = record {
  titles = codes "Open TELNET service" ∷ codes "Weak TLS" ∷ [];
  titles_error = false;
  known_cves = 1;
  kev_matches = 0;
  entropy = some 75000;
  last_scan = none;
}
