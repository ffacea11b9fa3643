-- ===== src/Risk.antt =====
-- backend/risk/scorer.go. A score is a whole number of 300ths of a point, the finest step that the
-- code makes: the floats of the source hold these values up to rounding. The counts come from
-- `COUNT(*)` and the days from a scan in the past, so they are not negative.
pub mod Score
pub mod Factors
use seagles.Common.{
  ℕ, ◌+◌, ◌*◌, ◌/◌, min, Bool, true, false, ◌||◌, Option, none, some, List, [], ◌∷◌, ◌++◌, ltb, leb,
  if◌then◌else◌,
}
use seagles.Clock.{since, hour}
use seagles.Text.{Text, codes, contains, to_lower}

pub record RiskFactors : Type 0 where
  pub has_default_creds : Bool
  pub has_telnet : Bool
  pub has_adb : Bool
  pub has_modbus : Bool
  pub has_unauth_rtsp : Bool
  pub has_plaintext_mqtt : Bool
  pub has_http_mgmt : Bool
  pub has_weak_tls : Bool
  pub known_cve_count : ℕ
  pub kev_match_count : ℕ
  pub firmware_outdated : Bool
  pub high_entropy_firmware : Bool
  pub days_since_last_scan : ℕ

-- The points of a factor that is on or off.
abbrev pub if_on : Bool → ℕ → ℕ
if_on true points = points
if_on false points = 0

unfoldable pub calculate_risk_score : RiskFactors → ℕ
calculate_risk_score f =
    min
      (if_on f.has_default_creds 1200
        + if_on f.has_telnet 900
        + if_on f.has_adb 1050
        + if_on f.has_modbus 750
        + if_on f.has_unauth_rtsp 600
        + if_on f.has_plaintext_mqtt 450
        + if_on f.has_http_mgmt 300
        + if_on f.has_weak_tls 450
        + min (f.known_cve_count * 150) 900
        + min (f.kev_match_count * 600) 1200
        + if_on f.firmware_outdated 300
        + if_on f.high_entropy_firmware 600
        + min f.days_since_last_scan 300)
      3000

pub data Severity : Type 0 where
  low medium high critical : Severity

unfoldable pub severity_from_score : ℕ → Severity
severity_from_score score =
    if leb 2400 score
    then critical
    else (if leb 1800 score then high else (if leb 900 score then medium else low))

-- The entry of a factor in the breakdown, if there is one.
abbrev pub entry_if : Bool → Text → ℕ → List (Text × ℕ)
entry_if true name points = (name, points) ∷ []
entry_if false name points = []

unfoldable pub score_breakdown : RiskFactors → List (Text × ℕ)
score_breakdown f =
    let cve_score = min (f.known_cve_count * 150) 900 in
    let kev_score = min (f.kev_match_count * 600) 1200 in
    let day_score = min f.days_since_last_scan 300 in
    entry_if f.has_default_creds (codes "default_credentials") 1200
    ++ (entry_if f.has_telnet (codes "telnet_exposed") 900
        ++ (entry_if f.has_adb (codes "adb_exposed") 1050
            ++ (entry_if f.has_modbus (codes "modbus_detected") 750
                ++ (entry_if f.has_unauth_rtsp (codes "unauth_rtsp") 600
                    ++ (entry_if f.has_plaintext_mqtt (codes "plaintext_mqtt") 450
                        ++ (entry_if f.has_http_mgmt (codes "http_management") 300
                            ++ (entry_if f.has_weak_tls (codes "weak_tls") 450
                                ++ (entry_if (ltb 0 cve_score) (codes "known_cves") cve_score
                                    ++ (entry_if (ltb 0 kev_score) (codes "kev_matches") kev_score
                                        ++ (entry_if f.firmware_outdated (codes "firmware_outdated")
                                              300
                                            ++ (entry_if f.high_entropy_firmware
                                                  (codes "high_entropy_firmware") 600
                                                ++ entry_if (ltb 0 day_score) (codes "scan_age")
                                                    day_score)))))))))))

abbrev pub no_factors : RiskFactors
no_factors = record {
  has_default_creds = false;
  has_telnet = false;
  has_adb = false;
  has_modbus = false;
  has_unauth_rtsp = false;
  has_plaintext_mqtt = false;
  has_http_mgmt = false;
  has_weak_tls = false;
  known_cve_count = 0;
  kev_match_count = 0;
  firmware_outdated = false;
  high_entropy_firmware = false;
  days_since_last_scan = 0;
}

abbrev pub says : Text → Text → Bool
says word title = contains (to_lower title) word

-- The body of the loop over the titles of a device's open vulnerabilities.
unfoldable pub read_title : Text → RiskFactors → RiskFactors
read_title title f = record f {
  has_telnet = says (codes "telnet") title || f.has_telnet;
  has_adb = (says (codes "adb") title || says (codes "android debug") title) || f.has_adb;
  has_modbus = says (codes "modbus") title || f.has_modbus;
  has_unauth_rtsp = says (codes "rtsp") title || f.has_unauth_rtsp;
  has_plaintext_mqtt = says (codes "mqtt") title || f.has_plaintext_mqtt;
  has_http_mgmt = says (codes "http") title || f.has_http_mgmt;
  has_default_creds = says (codes "default credentials") title || f.has_default_creds;
  has_weak_tls = says (codes "tls") title || f.has_weak_tls;
}

unfoldable pub read_titles : List Text → RiskFactors → RiskFactors
read_titles [] f = f
read_titles (t ∷ ts) f = read_titles ts (read_title t f)

-- What the queries of `BuildRiskFactors` return for a device. A count is 0, and a nullable value
-- absent, where the query fails; the titles are those that were read before `titles_error`, if there
-- is one. The entropy is a NUMERIC(5,4), here in ten-thousandths.
pub record Evidence : Type 0 where
  pub titles : List Text
  pub titles_error : Bool
  pub known_cves : ℕ
  pub kev_matches : ℕ
  pub entropy : Option ℕ
  pub last_scan : Option ℕ

abbrev is_high : Option ℕ → Bool
is_high none = false
is_high (some entropy) = ltb 72000 entropy

abbrev days : ℕ → Option ℕ → ℕ
days now none = 0
days now (some t) = since now t / (24 * hour)

-- The second part of the result is whether an error is returned.
unfoldable pub build_risk_factors : ℕ → Evidence → RiskFactors × Bool
build_risk_factors now e =
    let f = read_titles e.titles no_factors in
    if e.titles_error then (f, true) else (
      record f {
        known_cve_count = e.known_cves;
        kev_match_count = e.kev_matches;
        high_entropy_firmware = is_high e.entropy;
        days_since_last_scan = days now e.last_scan;
      },
      false,
    )
