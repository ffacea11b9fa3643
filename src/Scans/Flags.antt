-- ===== src/Scans/Flags.antt =====
-- What the findings of a scan mean for the risk score (backend/api/scans.go, backend/risk/scorer.go).
use seagles.Common.{
  ℕ, ◌≡◌, ◌∙◌, sym, refl, ap, Bool, true, false, not, ◌||◌, Option, List, [], ◌∷◌, ◌++◌, arith,
  ◌==◌, any, all, All, map,
}
use seagles.Text.{Text, codes, text_eq, contains, has_prefix, to_lower}
use seagles.Risk.{Evidence, build_risk_factors, says}
use seagles.Risk.Factors.{flags_of_titles}
use seagles.Scanner.Protocols.{ProtocolFinding, Peer, detect_protocols}
use seagles.Scanner.Protocols.Findings.{
  Kind, telnet, adb, mqtt, modbus, rtsp, tls, name, Sound, detect_protocols-Sound,
}
use seagles.Scans.{exposure_title}

-- A word stands in the title of a finding exactly if the protocol passes a test.
abbrev same : Bool → Bool → Bool
same true b = b
same false b = not b

abbrev agrees : (Text → Bool) → (Text → Bool) → Kind → Bool
agrees word test k = same (word (name k ++ codes " exposure detected")) (test (name k))

abbrev agrees_all : (Text → Bool) → (Text → Bool) → Bool
agrees_all word test = all (agrees word test) (telnet ∷ adb ∷ mqtt ∷ modbus ∷ rtsp ∷ tls ∷ [])

same-eq : (a b : Bool) → same a b ≡ true → a ≡ b
same-eq true b h = sym h
same-eq false b h = ground arith

agrees_each :
    (word test : Text → Bool) (k : Kind) → agrees_all word test ≡ true → agrees word test k ≡ true
agrees_each word test telnet h = ground arith
agrees_each word test adb h = ground arith
agrees_each word test mqtt h = ground arith
agrees_each word test modbus h = ground arith
agrees_each word test rtsp h = ground arith
agrees_each word test tls h = ground arith

titles_of_kinds :
    (word test : Text → Bool)
    → agrees_all word test ≡ true
    → (ports : List ℕ) (fs : List ProtocolFinding) → All (Sound ports) fs
    → any word (map exposure_title fs) ≡ any (λ f. test f.protocol) fs
unfolding exposure_title
titles_of_kinds word test r ports [] s = refl
titles_of_kinds word test r ports (f ∷ fs) ((k, port, e, o), s) =
    let read = same-eq _ _ (agrees_each word test k r) in
    let one =
      ap (λ (p : Text). word (p ++ codes " exposure detected")) o.0 ∙ read ∙ ap test (sym o.0) in
    ground (arith, one, titles_of_kinds word test r ports fs s)

title_flag :
    (word test : Text → Bool) (dial : ℕ → Option Peer) (ip : Text) (ports : List ℕ)
    (titles : List Text)
    → agrees_all word test ≡ true
    → titles ≡ map exposure_title (detect_protocols dial ip ports)
    → any word titles ≡ any (λ f. test f.protocol) (detect_protocols dial ip ports)
title_flag word test dial ip ports titles r h =
    ap (any word) h
    ∙ titles_of_kinds word test r ports (detect_protocols dial ip ports)
        (detect_protocols-Sound dial ip ports)

never : Text → Bool
never p = false

any-never : (fs : List ProtocolFinding) → any (λ f. never f.protocol) fs ≡ false
unfolding never
any-never [] = refl
any-never (f ∷ fs) = any-never fs

abbrev pub found : Text → List ProtocolFinding → Bool
found protocol fs = any (λ f. f.protocol == protocol) fs

-- For a device whose open vulnerabilities are the findings of one run of the protocol scanner, each
-- factor of the risk score is set exactly by the finding of its protocol. A TLS service sets the
-- factor for weak TLS, whatever its versions and ciphers are, and nothing sets the factors for HTTP
-- management and default credentials.
pub flags_of_findings :
    (dial : ℕ → Option Peer) (ip : Text) (ports : List ℕ) (now : ℕ) (e : Evidence)
    → e.titles ≡ map exposure_title (detect_protocols dial ip ports)
    → let fs = detect_protocols dial ip ports in
      let f = (build_risk_factors now e).0 in
      (f.has_telnet ≡ found (codes "Telnet") fs)
      × (f.has_adb ≡ found (codes "ADB") fs)
      × (f.has_modbus ≡ found (codes "Modbus") fs)
      × (f.has_unauth_rtsp ≡ found (codes "RTSP-unauth") fs)
      × (f.has_plaintext_mqtt ≡ found (codes "MQTT-plaintext") fs)
      × (f.has_http_mgmt ≡ false)
      × (f.has_default_creds ≡ false)
      × (f.has_weak_tls ≡ found (codes "TLS-service") fs)
unfolding contains has_prefix to_lower never
flags_of_findings dial ip ports now e h =
    let fs = detect_protocols dial ip ports in
    let (a, b, c, d, m, http, creds, w) = flags_of_titles now e in
    (
      a
          ∙ title_flag (says (codes "telnet")) (λ p. p == codes "Telnet") dial ip ports e.titles
              refl h,
      b
          ∙ title_flag (λ t. says (codes "adb") t || says (codes "android debug") t)
              (λ p. p == codes "ADB") dial ip ports e.titles refl h,
      c
          ∙ title_flag (says (codes "modbus")) (λ p. p == codes "Modbus") dial ip ports e.titles
              refl h,
      d
          ∙ title_flag (says (codes "rtsp")) (λ p. p == codes "RTSP-unauth") dial ip ports e.titles
              refl h,
      m
          ∙ title_flag (says (codes "mqtt")) (λ p. p == codes "MQTT-plaintext") dial ip ports
              e.titles refl h,
      http ∙ title_flag (says (codes "http")) never dial ip ports e.titles refl h ∙ any-never fs,
      creds
          ∙ title_flag (says (codes "default credentials")) never dial ip ports e.titles refl h
          ∙ any-never fs,
      w
          ∙ title_flag (says (codes "tls")) (λ p. p == codes "TLS-service") dial ip ports e.titles
              refl h,
    )
