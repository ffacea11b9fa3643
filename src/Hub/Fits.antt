-- ===== src/Hub/Fits.antt =====
-- The channels that belong to the clients of the hub, and how they are opened, filled, emptied and
-- closed (backend/api/ws.go).
use seagles.Common.{
  ℕ, ◌≤◌, ◌≡◌, inl, inr, refl, Bool, true, false, not, ◌&&◌, Option, none, some, List, [], ◌∷◌,
  arith, leb, nat_beq_iff, nat_eq, length, Option-cases,
}
use seagles.Dict.{
  lookup, insert, delete, IsMap, lookup-insert, lookup-delete, insert-IsMap, delete-IsMap,
}
use seagles.Text.{Text}
use seagles.Hub.{
  Channel, WsHub, send_capacity, new_hub, register, connect, drop_client, unregister, take_message,
}

-- A registered client has an open channel, one that is not has a closed channel or none, and no
-- channel holds more than it can.
pub fits : Option Bool → Option Channel → Bool
fits none none = true
fits none (some ch) = ch.closed && leb (length ch.buffer) send_capacity
fits (some b) none = false
fits (some b) (some ch) = not ch.closed && leb (length ch.buffer) send_capacity

abbrev pub Inv : WsHub → Type 0
Inv h =
    IsMap h.clients
    × ((client : ℕ) → fits (lookup client h.clients) (lookup client h.channels) ≡ true)

pub new_hub-Inv : Inv new_hub
unfolding new_hub fits lookup
new_hub-Inv = (tt, λ c. refl)

pub connect-Inv : (client : ℕ) (h : WsHub) → Inv h → Inv (connect client h)
unfolding connect register fits
connect-Inv client h i = (
  insert-IsMap client true h.clients i.0,
  λ j. ground (
    arith,
    i.1 j,
    lookup-insert client j true h.clients,
    lookup-insert client j (record { buffer = []; closed = false }) h.channels,
  ),
)

-- A registered client has an open channel.
pub open_channel :
    (client : ℕ) (h : WsHub) (b : Bool)
    → Inv h
    → lookup client h.clients ≡ some b
    → (ch : Channel) × (lookup client h.channels ≡ some ch)
      × (ch.closed ≡ false)
      × (length ch.buffer ≤ send_capacity)
unfolding fits
open_channel client h b i r = elim (Option-cases (lookup client h.channels)) [
  | inl e ↦ absurd (ground (arith, e, r, i.1 client))
  | inr (ch, e) ↦ (ch, e, ground (arith, e, r, i.1 client), ground (arith, e, r, i.1 client))
]

abbrev pub dropped : ℕ → Channel → WsHub → WsHub
dropped client ch h = record {
  clients = delete client h.clients;
  channels = insert client (record ch { closed = true }) h.channels;
}

pub drop_client-dropped :
    (client : ℕ) (ch : Channel) (h : WsHub)
    → lookup client h.channels ≡ some ch
    → ch.closed ≡ false
    → drop_client client h ≡ some (dropped client ch h)
unfolding drop_client
drop_client-dropped client ch h e o = rw (drop_client, e, o) refl

pub dropped-Inv :
    (client : ℕ) (ch : Channel) (h : WsHub)
    → Inv h
    → length ch.buffer ≤ send_capacity
    → Inv (dropped client ch h)
unfolding fits
dropped-Inv client ch h i l = (
  delete-IsMap client h.clients i.0,
  λ j. ground (
    arith,
    l,
    i.1 j,
    lookup-delete client j h.clients i.0,
    lookup-insert client j (record ch { closed = true }) h.channels,
  ),
)

abbrev pub with_buffer : ℕ → List Text → Channel → WsHub → WsHub
with_buffer client msgs ch h = record h {
  channels = insert client (record ch { buffer = msgs }) h.channels;
}

pub with_buffer-Inv :
    (client : ℕ) (msgs : List Text) (ch : Channel) (h : WsHub)
    → Inv h
    → lookup client h.channels ≡ some ch
    → length msgs ≤ send_capacity
    → Inv (with_buffer client msgs ch h)
unfolding fits
with_buffer-Inv client msgs ch h i e l = (
  i.0,
  λ j. ground (
    arith,
    e,
    l,
    i.1 j,
    nat_beq_iff client j,
    lookup-insert client j (record ch { buffer = msgs }) h.channels,
  ),
)

pub unregister-Inv :
    (client : ℕ) (h : WsHub) → Inv h → (h' : WsHub) × (unregister client h ≡ some h') × Inv h'
unfolding unregister
unregister-Inv client h i = elim (Option-cases (lookup client h.clients)) [
  | inl e ↦ (h, rw (unregister, e) refl, i)
  | inr (b, e) ↦
      let (ch, f, o, l) = open_channel client h b i e in
      (
        dropped client ch h,
        rw (unregister, e) (drop_client-dropped client ch h f o),
        dropped-Inv client ch h i l,
      )
]

held :
    (client : ℕ) (h : WsHub) (ch : Channel)
    → Inv h
    → lookup client h.channels ≡ some ch
    → length ch.buffer ≤ send_capacity
unfolding fits
held client h ch i e = ground (arith, e, i.1 client)

pub take_message-Inv : (client : ℕ) (h : WsHub) → Inv h → Inv (take_message client h).0
unfolding take_message
take_message-Inv client h i = elim (Option-cases (lookup client h.channels)) [
  | inl e ↦ rw (take_message, e) i
  | inr (ch, e) ↦ took ch e ch.buffer refl
]
  where
    took :
        (ch : Channel)
        → lookup client h.channels ≡ some ch
        → (buf : List Text) → ch.buffer ≡ buf
        → Inv (take_message client h).0
    took ch e [] q = rw (take_message, e, q) i
    took ch e (msg ∷ rest) q =
        rw (take_message, e, q)
          (with_buffer-Inv client rest ch h i e (ground (arith, q, held client h ch i e)))
