-- ===== src/Scanner/Nmap.antt =====
-- backend/scanner/nmap.go: `DiscoverHosts` and `DeepScan` on what nmap printed. Running nmap and
-- decoding its XML are an argument, `none` where either fails.
pub mod Ports
use seagles.Common.{
  ℕ, Bool, true, false, ◌&&◌, Option, none, some, List, [], ◌∷◌, ltb, nat_beq, nat_eq, ◌==◌,
  if◌then◌else◌,
}
use seagles.Common.Int.{ℤ, pos, negsuc}
use seagles.Dict.{insert}
use seagles.Text.{Text, codes, text_eq}
use seagles.Scanner.Validate.{ok, sanitize_cidr, sanitize_ip, atoi}

pub record NmapAddr : Type 0 where
  pub addr : Text
  pub addr_type : Text
  pub vendor : Text

pub record Service : Type 0 where
  pub name : Text
  pub version : Text
  pub banner : Text

pub record NmapPort : Type 0 where
  pub port_id : ℕ
  pub protocol : Text
  pub state : Text
  pub service : Service

pub record NmapOsMatch : Type 0 where
  pub name : Text
  pub accuracy : Text

pub record NmapHost : Type 0 where
  pub addresses : List NmapAddr
  pub hostnames : List Text
  pub ports : List NmapPort
  pub os_matches : List NmapOsMatch
  pub status : Text

pub record Port : Type 0 where
  pub number : ℕ
  pub protocol : Text
  pub state : Text

-- `services` is the map from open ports; `raw_xml` is what nmap printed.
pub record Host : Type 0 where
  pub ip : Text
  pub mac : Text
  pub hostname : Text
  pub vendor : Text
  pub os_match : Text
  pub open_ports : List Port
  pub services : List (ℕ × Service)
  pub raw_xml : Text

-- The first IPv4 address of a host.
unfoldable pub first_ipv4 : List NmapAddr → Option Text
first_ipv4 [] = none
first_ipv4 (a ∷ rest) =
    let later = first_ipv4 rest in if a.addr_type == codes "ipv4" then some a.addr else later

abbrev cons_some : Option Text → List Text → List Text
cons_some none l = l
cons_some (some a) l = a ∷ l

unfoldable pub hosts_up : List NmapHost → List Text
unfolding first_ipv4
hosts_up [] = []
hosts_up (h ∷ hs) =
    let rest = hosts_up hs in
    if h.status == codes "up" then cons_some (first_ipv4 h.addresses) rest else rest

unfoldable pub discover_hosts : (Text → Option (List NmapHost)) → Text → Option (List Text)
discover_hosts nmap cidr = elim (sanitize_cidr cidr) [
  | ok ↦ (elim (nmap cidr) [ none ↦ none | some hosts ↦ some (hosts_up hosts) ])
  | _ ↦ none
]

-- The loop over the addresses: the last one of type `mac` wins, a vendor is kept if it is not empty.
unfoldable pub read_addresses : List NmapAddr → Host → Host
read_addresses [] h = h
read_addresses (a ∷ rest) h = read_addresses rest (
    if a.addr_type == codes "mac"
    then record h { mac = a.addr; vendor = if a.vendor == [] then h.vendor else a.vendor }
    else h)

abbrev accuracy_of : Option ℤ → ℤ
accuracy_of none = pos 0
accuracy_of (some n) = n

abbrev above : ℤ → ℤ → Bool
above (pos m) (pos n) = ltb n m
above (pos m) (negsuc n) = true
above (negsuc m) (pos n) = false
above (negsuc m) (negsuc n) = ltb m n

-- The first of the most accurate matches.
unfoldable pub best_match : NmapOsMatch → List NmapOsMatch → NmapOsMatch
best_match best [] = best
best_match best (m ∷ ms) =
    best_match
      (if above (accuracy_of (atoi m.accuracy)) (accuracy_of (atoi best.accuracy)) then m else best)
      ms

abbrev read_os : List NmapOsMatch → Host → Host
read_os [] h = h
read_os (m ∷ ms) h = record h { os_match = (best_match m (m ∷ ms)).name }

abbrev read_hostname : List Text → Host → Host
read_hostname [] h = h
read_hostname (name ∷ names) h = record h { hostname = name }

unfoldable pub read_ports : List NmapPort → List Port
read_ports [] = []
read_ports (p ∷ ps) =
    record { number = p.port_id; protocol = p.protocol; state = p.state } ∷ read_ports ps

unfoldable pub read_services : List NmapPort → List (ℕ × Service) → List (ℕ × Service)
read_services [] m = m
read_services (p ∷ ps) m =
    read_services ps (if p.state == codes "open" then insert p.port_id p.service m else m)

abbrev no_host : Text → Text → Host
no_host ip output = record {
  ip = ip;
  mac = [];
  hostname = [];
  vendor = [];
  os_match = [];
  open_ports = [];
  services = [];
  raw_xml = output;
}

unfoldable pub read_run : Text → Text → List NmapHost → Host
unfolding read_addresses best_match read_ports read_services
read_run ip output [] = no_host ip output
read_run ip output (h ∷ hs) =
    record (read_os h.os_matches
      (read_hostname h.hostnames (read_addresses h.addresses (no_host ip output)))) {
        open_ports = read_ports h.ports;
        services = read_services h.ports [];
      }

-- The argument `nmap` gives the output and the hosts decoded from it.
unfoldable pub deep_scan :
    (parse_ip : Text → Bool) → (Text → Option (Text × List NmapHost)) → Text → Option Host
unfolding read_run
deep_scan parse_ip nmap ip = elim (sanitize_ip parse_ip ip) [
  | ok ↦ (elim (nmap ip) [ none ↦ none | some (output, hosts) ↦ some (read_run ip output hosts) ])
  | _ ↦ none
]

-- The numbers of the ports that are open, as `runDeviceScan` collects them.
unfoldable pub open_numbers : List Port → List ℕ
open_numbers [] = []
open_numbers (p ∷ ps) =
    let rest = open_numbers ps in if p.state == codes "open" then p.number ∷ rest else rest
