-- ===== src/Hub.antt =====
-- backend/api/ws.go: the hub of the WebSocket clients. A client is a number and has a Go channel of
-- 256 messages; each operation below holds the hub's mutex, except `take_message`, which is one
-- receive of `writePump`. `none` is a panic: a send on a closed channel, a second close, or the use
-- of a client that does not exist. A message is what json.Marshal made of an event.
pub mod Fits
pub mod Safe
use seagles.Common.{
  ℕ, ◌+◌, Bool, true, false, not, Option, none, some, List, [], ◌∷◌, ◌++◌, ltb, ◌==◌, nat_eq,
  if◌then◌else◌, length, any,
}
use seagles.Dict.{lookup, insert, delete}
use seagles.Text.{Text, text_eq}

pub record Channel : Type 0 where
  pub buffer : List Text
  pub closed : Bool

abbrev pub send_capacity : ℕ
send_capacity = 256

pub record WsHub : Type 0 where
  pub clients : List (ℕ × Bool)
  pub channels : List (ℕ × Channel)

unfoldable pub new_hub : WsHub
new_hub = record { clients = []; channels = [] }

unfoldable pub register : ℕ → WsHub → WsHub
register client h = record h { clients = insert client true h.clients }

-- The part of `WSHandler` after the upgrade.
unfoldable pub connect : ℕ → WsHub → WsHub
unfolding register
connect client h =
    register client
      (record h { channels = insert client (record { buffer = []; closed = false }) h.channels })

-- close (client.send) and the deletion of the client
unfoldable pub drop_client : ℕ → WsHub → Option WsHub
drop_client client h = elim (lookup client h.channels) [
  | none ↦ none
  | some ch ↦
      if ch.closed
      then none
      else some (record {
        clients = delete client h.clients;
        channels = insert client (record ch { closed = true }) h.channels;
      })
]

unfoldable pub unregister : ℕ → WsHub → Option WsHub
unfolding drop_client
unregister client h = elim (lookup client h.clients) [
  | none ↦ some h
  | some _ ↦ drop_client client h
]

-- One round of the loop of `Broadcast`: the select with a default.
unfoldable pub offer : Text → ℕ → WsHub → Option WsHub
unfolding drop_client
offer msg client h = elim (lookup client h.channels) [
  | none ↦ none
  | some ch ↦
      if ch.closed
      then none
      else (if ltb (length ch.buffer) send_capacity
          then some (record h {
            channels = insert client (record ch { buffer = ch.buffer ++ (msg ∷ []) }) h.channels;
          })
          else drop_client client h)
]

unfoldable pub offer_all : Text → List (ℕ × Bool) → WsHub → Option WsHub
unfolding offer
offer_all msg [] h = some h
offer_all msg ((client, _) ∷ rest) h = elim (offer msg client h) [
  | none ↦ none
  | some h' ↦ offer_all msg rest h'
]

unfoldable pub broadcast : Text → WsHub → Option WsHub
unfolding offer_all
broadcast msg h = offer_all msg h.clients h

-- What a receive on the channel gives, if there is a message.
unfoldable pub take_message : ℕ → WsHub → WsHub × Option Text
take_message client h = elim (lookup client h.channels) [
  | none ↦ (h, none)
  | some ch ↦ elim ch.buffer [
    | [] ↦ (h, none)
    | msg ∷ rest ↦
        (record h { channels = insert client (record ch { buffer = rest }) h.channels }, some msg)
  ]
]

-- CheckOrigin of the upgrader.
unfoldable pub check_origin : List Text → Text → Bool
check_origin [] origin = false
check_origin (o ∷ os) origin = if origin == [] then false else any (λ p. p == origin) (o ∷ os)
