-- ===== src/Tests/Scanner.antt =====
-- Credentials tried on a device that locks after three attempts, and addresses for nmap
-- (backend/scanner).
use seagles.Common.{
  ℕ, suc, ◌≤◌, ◌≡◌, refl, Bool, true, false, Option, none, some, List, [], ◌∷◌, all, length, take,
  if◌then◌else◌, ◌==◌, ltb,
}
use seagles.Common.Int.{pos}
use seagles.Text.{Text, codes, contains, text_eq, split, to_lower}
use seagles.Scanner.Credentials.{
  Credential, judged, ssh_verdict, limit, empty_result, test_ssh_creds, try_all, record_attempt,
}
use seagles.Scanner.Credentials.Search.{Finding, test_ssh_creds-found}
use seagles.Scanner.Validate.{
  ok, sanitize_cidr, sanitize_ip, is_suspicious, is_dotted_quad, atoi, number, digits_value,
}
use seagles.Scanner.Validate.Shape.{is_cidr_byte, sanitize_cidr_bytes}

abbrev guesses : List Credential
guesses =
    record { username = codes "root"; password = codes "root" }
    ∷ record { username = codes "admin"; password = codes "1234" }
    ∷ record { username = codes "pi"; password = codes "raspberry" }
    ∷ []

abbrev answer : Bool → ℕ → Option Text
answer true w = none
answer false w = if ltb w 3 then some (codes "denied") else some (codes "Too many tries")

abbrev device : Credential → ℕ → ℕ × Option Text
device c w = (suc w, answer (c.password == codes "1234") w)

abbrev web : Credential → ℕ → ℕ × Option (ℕ × Text)
web c w = (suc w, some (401, []))

ssh_finds : (test_ssh_creds (codes "10.0.0.9:22") guesses (pos 9) device 0).1.found ≡ true
unfolding test_ssh_creds try_all record_attempt limit contains to_lower
ssh_finds = refl

test_ssh_creds-found_example :
    Finding
      (judged device ssh_verdict)
      (take (limit (pos 9) guesses) guesses)
      0
      (empty_result (codes "ssh"))
      (test_ssh_creds (codes "10.0.0.9:22") guesses (pos 9) device 0)
test_ssh_creds-found_example =
    test_ssh_creds-found (codes "10.0.0.9:22") guesses (pos 9) device 0 ssh_finds

network_ok : sanitize_cidr (codes "10.0.0.0/24") ≡ ok
unfolding sanitize_cidr is_suspicious is_dotted_quad atoi number digits_value contains split
network_ok = refl

sanitize_cidr_bytes_example :
    (all is_cidr_byte (codes "10.0.0.0/24") ≡ true) × (length (codes "10.0.0.0/24") ≤ 50)
sanitize_cidr_bytes_example = sanitize_cidr_bytes (codes "10.0.0.0/24") network_ok

-- A sign is part of a number for `strconv.Atoi`, so that an address can look like an option.
option_accepted : sanitize_ip (λ s. false) (codes "-0.1.2.3") ≡ ok
unfolding sanitize_ip is_suspicious is_dotted_quad atoi number digits_value contains split
option_accepted = refl
