-- ===== src/Http/WebSocket.antt =====
-- `WebSocketManager` of src/http/websocket.rs.
--
-- The connections are listed in the order in which the map's `retain` visits them.
pub mod Delivery
pub mod Fresh
pub mod Session
mod Tests
use Prim.Native.Nat.{bit_and}
use sms_server.Base.{
  ℕ, zero, suc, ◌+◌, Bool, true, false, List, [], ◌∷◌, Option, none, some, Result, ok, err, ◌==◌,
  if◌then◌else◌, Text,
}
use sms_server.Text.{equal}
use sms_server.Events.{EventTypes}

-- The sender's end of a channel is a number.
pub record StoredConnection : Type 0 where
  pub id : Text
  pub sender : ℕ
  pub event_mask : ℕ

-- The connections that stay, what was sent on which channel, and `successful_sends`.
pub record Broadcast : Type 0 where
  pub connections : List StoredConnection
  pub sent : List (ℕ × Text)
  pub successful_sends : ℕ

-- `retain`, where `is_open` says whether the receiver of a channel still exists.
unfoldable pub retain : (ℕ → Bool) → Text → ℕ → List StoredConnection → Broadcast
retain is_open message event_bit [] = record { connections = []; sent = []; successful_sends = 0 }
retain is_open message event_bit (c ∷ cs) =
    let rest = retain is_open message event_bit cs in
    if bit_and c.event_mask event_bit == 0
    then record rest { connections = c ∷ rest.connections }
    else if is_open c.sender
    then record {
      connections = c ∷ rest.connections;
      sent = (c.sender, message) ∷ rest.sent;
      successful_sends = suc rest.successful_sends;
    }
    else rest

-- `contains_key`
unfoldable pub contains_key : Text → List StoredConnection → Bool
contains_key id [] = false
contains_key id (c ∷ cs) = if equal c.id id then true else contains_key id cs

module _ (e : EventTypes) where
  abbrev broadcast_json : (ℕ → Bool) → ℕ → List StoredConnection → Result Text → Broadcast
  broadcast_json is_open event_bit cs (err reason) = record {
    connections = cs;
    sent = [];
    successful_sends = 0;
  }
  broadcast_json is_open event_bit cs (ok message) = retain is_open message event_bit cs

  unfoldable pub broadcast : (ℕ → Bool) → List StoredConnection → e.Event → Broadcast
  broadcast is_open cs event =
      broadcast_json is_open (e.to_bit (e.kind_of event)) cs (e.to_json event)

  abbrev pub mask_of : Option (List (e.EventKind)) → ℕ
  mask_of none = e.all_bits
  mask_of (some event_types) = e.events_to_mask event_types

  abbrev pub connection : Text → ℕ → Option (List (e.EventKind)) → StoredConnection
  connection id tx events = record { id = id; sender = tx; event_mask = mask_of events }

  -- The loop draws the ids `ids 0`, `ids 1`, … and runs on fuel; it returns the id it settles on.
  unfoldable pub add_connection :
      (ℕ → Text)
      → ℕ
      → ℕ
      → Option (List (e.EventKind))
      → ℕ
      → List StoredConnection
      → Option (Text × List StoredConnection)
  add_connection ids zero tx events i cs = none
  add_connection ids (suc fuel) tx events i cs =
      let again = add_connection ids fuel tx events (suc i) cs in
      if contains_key (ids i) cs then again else some (ids i, connection (ids i) tx events ∷ cs)

unfoldable pub remove_connection : Text → List StoredConnection → List StoredConnection
remove_connection id [] = []
remove_connection id (c ∷ cs) =
    let rest = remove_connection id cs in if equal c.id id then rest else c ∷ rest
