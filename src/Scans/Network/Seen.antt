-- ===== src/Scans/Network/Seen.antt =====
-- What a scan of the network leaves in the inventory (backend/api/scans.go).
use seagles.Common.{
  ◌≡◌, ◌∙◌, refl, inl, inr, Bool, true, false, not, ◌||◌, ◌&&◌, Option, none, some, List, [], ◌∷◌,
  arith, ◌==◌, Option-cases, any,
}
use seagles.Dict.{lookup, lookup-insert, lookup-update, is_some}
use seagles.Text.{Text, text_eq, text_beq_iff}
use seagles.Scans.Network.{
  Inventory, Statements, seen, add_device, visit_host, visit_hosts, network_scan,
}

-- All statements of the scan succeed.
abbrev pub Calm : Statements → Type 0
Calm q =
    ((ip : Text) → q.select_fails ip ≡ false)
    × ((ip : Text) → q.update_fails ip ≡ false)
    × ((ip : Text) → is_some (q.new_id ip) ≡ true)

module _ (q : Statements) (safelisted : Text → Bool) where
  -- A safelisted address is passed over, and a visit is about one address only.
  visit-spares :
      (ip other : Text) (inv : Inventory)
      → safelisted other ≡ true
      → lookup other (visit_host q safelisted ip inv).devices ≡ lookup other inv.devices
  unfolding visit_host add_device
  visit-spares ip other inv s = elim (Option-cases (lookup ip inv.devices)) [
    | inl e ↦ elim (Option-cases (q.new_id ip)) [
      | inl f ↦ ground (arith, e, f)
      | inr (id, f) ↦ ground (
        arith,
        s,
        e,
        f,
        text_beq_iff ip other,
        lookup-insert ip other (record { id = id; last_seen = q.now ip }) inv.devices,
      )
    ]
    | inr (d, e) ↦
        ground
          (arith, s, e, text_beq_iff ip other, lookup-update ip other (seen (q.now ip)) inv.devices)
  ]

  visit-known :
      (ip other : Text) (inv : Inventory)
      → Calm q
      → is_some (lookup other (visit_host q safelisted ip inv).devices)
        ≡ (is_some (lookup other inv.devices) || (ip == other && not (safelisted ip)))
  unfolding visit_host add_device
  visit-known ip other inv c = elim (Option-cases (lookup ip inv.devices)) [
    | inl e ↦ elim (Option-cases (q.new_id ip)) [
      | inl f ↦ absurd (ground (arith, f, c.2 ip))
      | inr (id, f) ↦ ground (
        arith,
        c.0 ip,
        e,
        f,
        text_beq_iff ip other,
        lookup-insert ip other (record { id = id; last_seen = q.now ip }) inv.devices,
      )
    ]
    | inr (d, e) ↦ ground (
      arith,
      c.0 ip,
      c.1 ip,
      e,
      text_beq_iff ip other,
      lookup-update ip other (seen (q.now ip)) inv.devices,
    )
  ]

  visits-spare :
      (ips : List Text) (other : Text) (inv : Inventory)
      → safelisted other ≡ true
      → lookup other (visit_hosts q safelisted ips inv).devices ≡ lookup other inv.devices
  unfolding visit_hosts
  visits-spare [] other inv s = refl
  visits-spare (ip ∷ ips) other inv s =
      visits-spare ips other (visit_host q safelisted ip inv) s ∙ visit-spares ip other inv s

  visits-known :
      (ips : List Text) (other : Text) (inv : Inventory)
      → Calm q
      → is_some (lookup other (visit_hosts q safelisted ips inv).devices)
        ≡ (is_some (lookup other inv.devices) || any (λ ip. ip == other && not (safelisted ip)) ips)
  unfolding visit_hosts
  visits-known [] other inv c = ground arith
  visits-known (ip ∷ ips) other inv c =
      ground (
        arith,
        visits-known ips other (visit_host q safelisted ip inv) c,
        visit-known ip other inv c,
      )

  -- After a scan of the network whose statements succeed, a device is in the inventory exactly if it
  -- was there before or its host answered and is not on the safelist.
  pub network_scan_complete :
      (hosts : List Text) (other : Text) (inv : Inventory)
      → Calm q
      → is_some (lookup other (network_scan q safelisted (some hosts) inv).devices) ≡ (
          is_some (lookup other inv.devices)
          || any (λ ip. ip == other && not (safelisted ip)) hosts)
  unfolding network_scan
  network_scan_complete hosts other inv c = visits-known hosts other inv c

  pub network_scan_spares :
      (hosts : Option (List Text)) (other : Text) (inv : Inventory)
      → safelisted other ≡ true
      → lookup other (network_scan q safelisted hosts inv).devices ≡ lookup other inv.devices
  unfolding network_scan
  network_scan_spares none other inv s = refl
  network_scan_spares (some hosts) other inv s = visits-spare hosts other inv s
