-- ===== src/Scanner/Nmap/Ports.antt =====
-- The ports that a scan reports (backend/scanner/nmap.go).
use seagles.Common.{
  ℕ, ◌≡◌, refl, inl, inr, ◌||◌, none, List, [], ◌∷◌, arith, nat_beq, nat_eq, ◌==◌, Bool-cases, any,
}
use seagles.Dict.{lookup, insert, lookup-insert, is_some}
use seagles.Text.{Text, codes, text_eq}
use seagles.Scanner.Nmap.{
  NmapPort, NmapHost, Service, read_ports, read_services, open_numbers, read_run,
}

services-any :
    (p : ℕ) (ps : List NmapPort) (m : List (ℕ × Service))
    → is_some (lookup p (read_services ps m))
      ≡ (any (λ n. nat_beq n p) (open_numbers (read_ports ps)) || is_some (lookup p m))
unfolding read_services open_numbers read_ports
services-any p [] m = refl
services-any p (q ∷ ps) m = elim (Bool-cases (q.state == codes "open")) [
  | inl e ↦ rw e (
      ground (
        arith,
        services-any p ps (insert q.port_id q.service m),
        lookup-insert q.port_id p q.service m,
      ))
  | inr e ↦ rw e (services-any p ps m)
]

no_service : (p : ℕ) → lookup {V = Service} p [] ≡ none
unfolding lookup
no_service p = refl

-- The services that a scan stores are keyed by exactly the ports that are open.
pub services_of_open_ports :
    (ip output : Text) (hosts : List NmapHost) (p : ℕ)
    → is_some (lookup p (read_run ip output hosts).services)
      ≡ any (λ n. nat_beq n p) (open_numbers (read_run ip output hosts).open_ports)
unfolding read_run
services_of_open_ports ip output [] p = unfold lookup open_numbers in refl
services_of_open_ports ip output (h ∷ hs) p =
    ground (arith, services-any p h.ports [], no_service p)
