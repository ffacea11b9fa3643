-- ===== src/Hub/Safe.antt =====
-- The hub never panics (backend/api/ws.go).
use seagles.Common.{
  ℕ, ◌≡◌, ◌∙◌, inl, inr, refl, Bool, false, Option, none, some, List, [], ◌∷◌, ◌++◌, arith, ltb,
  ltb→lt, nat_beq_iff, ◌==◌, nat_eq, length, length-append, All, Bool-cases,
}
use seagles.Dict.{lookup, IsMap, lookup-delete}
use seagles.Text.{Text}
use seagles.Hub.{
  WsHub, send_capacity, connect, unregister, offer, offer_all, broadcast, take_message,
}
use seagles.Hub.Fits.{
  Inv, connect-Inv, open_channel, dropped, drop_client-dropped, dropped-Inv, with_buffer,
  with_buffer-Inv, unregister-Inv, take_message-Inv,
}

-- What a round of `Broadcast` leaves, for the client and for the others.
abbrev pub Offered : Text → ℕ → WsHub → Type 0
Offered msg client h =
    (h' : WsHub) × (offer msg client h ≡ some h')
    × Inv h'
    × ((j : ℕ) → (client == j) ≡ false → lookup j h'.clients ≡ lookup j h.clients)

pub offer-Inv :
    (msg : Text) (client : ℕ) (h : WsHub) (b : Bool)
    → Inv h
    → lookup client h.clients ≡ some b
    → Offered msg client h
unfolding offer
offer-Inv msg client h b i r =
    let (ch, e, o, l) = open_channel client h b i r in
    elim (Bool-cases (ltb (length ch.buffer) send_capacity)) [
      | inl s ↦ (
        with_buffer client (ch.buffer ++ (msg ∷ [])) ch h,
        rw (offer, e, o, s) refl,
        with_buffer-Inv client (ch.buffer ++ (msg ∷ [])) ch h i e (
            omega (
              arith,
              ltb→lt (length ch.buffer) send_capacity s,
              length-append ch.buffer (msg ∷ []),
            )),
        λ j n. refl,
      )
      | inr s ↦ (
        dropped client ch h,
        rw (offer, e, o, s) (drop_client-dropped client ch h e o),
        dropped-Inv client ch h i l,
        λ j n. ground (arith, n, lookup-delete client j h.clients i.0),
      )
    ]

apart :
    (client : ℕ) (m : List (ℕ × Bool))
    → lookup client m ≡ none
    → All (λ p. (client == p.0) ≡ false) m
unfolding lookup
apart client [] n = tt
apart client ((j, b) ∷ m) n =
    (ground (arith, nat_beq_iff client j, nat_beq_iff j client), apart client m (ground (arith, n)))

abbrev Registered : WsHub → List (ℕ × Bool) → Type 0
Registered h cs = All (λ p. lookup p.0 h.clients ≡ some p.1) cs

still-Registered :
    (client : ℕ) (h h' : WsHub) (cs : List (ℕ × Bool))
    → ((j : ℕ) → (client == j) ≡ false → lookup j h'.clients ≡ lookup j h.clients)
    → All (λ p. (client == p.0) ≡ false) cs
    → Registered h cs
    → Registered h' cs
still-Registered client h h' [] same d r = tt
still-Registered client h h' ((j, b) ∷ cs) same d r =
    (same j d.0 ∙ r.0, still-Registered client h h' cs same d.1 r.1)

offer_all-Inv :
    (msg : Text) (cs : List (ℕ × Bool)) (h : WsHub)
    → IsMap cs
    → Inv h
    → Registered h cs
    → (h' : WsHub) × (offer_all msg cs h ≡ some h') × Inv h'
unfolding offer_all
offer_all-Inv msg [] h m i r = (h, refl, i)
offer_all-Inv msg ((client, b) ∷ cs) h m i r =
    let (h1, e, i1, same) = offer-Inv msg client h b i r.0 in
    let (h2, f, i2) =
      offer_all-Inv msg cs h1 m.1 i1
        (still-Registered client h h1 cs same (apart client cs m.0) r.1) in
    (h2, rw (offer_all, e) f, i2)

entries : (m : List (ℕ × Bool)) → IsMap m → All (λ p. lookup p.0 m ≡ some p.1) m
unfolding lookup
entries [] u = tt
entries ((j, b) ∷ m) u = (ground (arith, nat_beq_iff j j), shown m (apart j m u.0) (entries m u.1))
  where
    shown :
        (n : List (ℕ × Bool))
        → All (λ p. (j == p.0) ≡ false) n
        → All (λ p. lookup p.0 m ≡ some p.1) n
        → All (λ p. lookup p.0 ((j, b) ∷ m) ≡ some p.1) n
    shown [] d k = tt
    shown (q ∷ n) d k = (ground (arith, d.0, k.0), shown n d.1 k.1)

pub broadcast-Inv :
    (msg : Text) (h : WsHub) → Inv h → (h' : WsHub) × (broadcast msg h ≡ some h') × Inv h'
unfolding broadcast
broadcast-Inv msg h i = offer_all-Inv msg h.clients h i.0 i (entries h.clients i.0)

pub data Op : Type 0 where
  connects : ℕ → Op
  unregisters : ℕ → Op
  broadcasts : Text → Op
  takes : ℕ → Op

pub apply : Op → WsHub → Option WsHub
apply (connects client) h = some (connect client h)
apply (unregisters client) h = unregister client h
apply (broadcasts msg) h = broadcast msg h
apply (takes client) h = some (take_message client h).0

pub apply_all : List Op → WsHub → Option WsHub
apply_all [] h = some h
apply_all (op ∷ ops) h = elim (apply op h) [ none ↦ none | some h' ↦ apply_all ops h' ]

apply-Inv : (op : Op) (h : WsHub) → Inv h → (h' : WsHub) × (apply op h ≡ some h') × Inv h'
unfolding apply
apply-Inv (connects client) h i = (connect client h, refl, connect-Inv client h i)
apply-Inv (unregisters client) h i = unregister-Inv client h i
apply-Inv (broadcasts msg) h i = broadcast-Inv msg h i
apply-Inv (takes client) h i = ((take_message client h).0, refl, take_message-Inv client h i)

-- From the invariant, no sequence of connections, disconnections, broadcasts and receives panics,
-- and the invariant still holds: exactly the registered clients have open channels, and no channel
-- has more messages than it can hold.
pub hub_safe :
    (ops : List Op) (h : WsHub) → Inv h → (h' : WsHub) × (apply_all ops h ≡ some h') × Inv h'
unfolding apply_all
hub_safe [] h i = (h, refl, i)
hub_safe (op ∷ ops) h i =
    let (h1, e, i1) = apply-Inv op h i in
    let (h2, f, i2) = hub_safe ops h1 i1 in (h2, rw (apply_all, e) f, i2)
