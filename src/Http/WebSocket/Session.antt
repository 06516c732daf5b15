-- ===== src/Http/WebSocket/Session.antt =====
-- `handle_websocket` of src/http/websocket.rs: the two tasks of a connection.
--
-- What the tasks do is a sequence of steps; any interleaving of them, and of the broadcasts to the
-- connection, is one.
pub mod Delivered
pub mod Ending
mod Tests
use sms_server.Base.{
  ℕ, Bool, true, false, not, ◌&&◌, List, [], ◌∷◌, ◌++◌, Option, none, some, if◌then◌else◌, Bytes,
  Text,
}

-- An unbounded channel. Dropping the receiver drops what is queued.
pub record Channel {ℓ} (A : Type ℓ) : Type ℓ where
  pub queue : List A
  pub has_sender : Bool
  pub has_receiver : Bool

module _ {ℓ} {A : Type ℓ} where
  abbrev unbounded_channel : Channel A
  unbounded_channel = record { queue = []; has_sender = true; has_receiver = true }

  abbrev pub is_linked : Channel A → Bool
  is_linked c = c.has_sender && c.has_receiver

  abbrev pub enqueue : A → Channel A → Channel A
  enqueue a c = if is_linked c then record c { queue = c.queue ++ a ∷ [] } else c

  abbrev pub drop_sender : Channel A → Channel A
  drop_sender c = record c { has_sender = false }

  abbrev pub drop_receiver : Channel A → Channel A
  drop_receiver c = record c { queue = []; has_receiver = false }

-- What the socket's stream gives; its end is no message. The source does nothing with the texts
-- and with the other messages.
pub data Received : Type 0 where
  text_received : Text → Received
  ping_received : Bytes → Received
  close_received other_received receive_error : Received

-- What the writer sends.
pub data Frame : Type 0 where
  text_frame : Text → Frame
  pong_frame : Bytes → Frame

-- The writer runs while `messages` has a receiver, the reader while `pings` has a sender, and the
-- manager knows the connection while `messages` has a sender.
pub record Session : Type 0 where
  pub messages : Channel Text
  pub pings : Channel Bytes
  pub written : List Frame

abbrev pub new_session : Session
new_session = record { messages = unbounded_channel; pings = unbounded_channel; written = [] }

abbrev pub end_writer : Session → Session
end_writer s = record s { messages = drop_receiver s.messages; pings = drop_receiver s.pings }

abbrev end_reader : Session → Session
end_reader s = record s { pings = drop_sender s.pings }

-- The branch of the writer's select for a message, where `sends` says whether the socket takes it.
-- With nothing queued it waits, if there is a sender, and else returns.
abbrev pub next_message : Bool → Session → List Text → Session
next_message sends s [] = if s.messages.has_sender then s else end_writer s
next_message sends s (msg ∷ queue) =
    if sends
    then record s {
      messages = record (s.messages) { queue = queue };
      written = s.written ++ text_frame msg ∷ [];
    }
    else end_writer s

abbrev pub next_ping : Bool → Session → List Bytes → Session
next_ping sends s [] = if s.pings.has_sender then s else end_writer s
next_ping sends s (ping_data ∷ queue) =
    if sends
    then record s {
      pings = record (s.pings) { queue = queue };
      written = s.written ++ pong_frame ping_data ∷ [];
    }
    else end_writer s

-- A round of the reader.
abbrev pub read_frame : Option Received → Session → Session
read_frame (some (text_received text)) s = s
read_frame (some other_received) s = s
read_frame (some (ping_received ping)) s =
    if s.pings.has_receiver then record s { pings = enqueue ping s.pings } else end_reader s
read_frame (some close_received) s = end_reader s
read_frame (some receive_error) s = end_reader s
read_frame none s = end_reader s

pub data SessionStep : Type 0 where
  message_broadcast : Text → SessionStep
  message_branch ping_branch : Bool → SessionStep
  reader_round : Option Received → SessionStep
  connection_removed : SessionStep

-- A step of a task that has ended does nothing. The connection is removed after either task has.
unfoldable pub handle_websocket_step : SessionStep → Session → Session
handle_websocket_step (message_broadcast msg) s = record s { messages = enqueue msg s.messages }
handle_websocket_step (message_branch sends) s =
    if s.messages.has_receiver then next_message sends s s.messages.queue else s
handle_websocket_step (ping_branch sends) s =
    if s.messages.has_receiver then next_ping sends s s.pings.queue else s
handle_websocket_step (reader_round item) s = if s.pings.has_sender then read_frame item s else s
handle_websocket_step connection_removed s =
    if not (s.messages.has_receiver && s.pings.has_sender)
    then record s { messages = drop_sender s.messages }
    else s

unfoldable pub handle_websocket : List SessionStep → Session → Session
unfolding handle_websocket_step
handle_websocket [] s = s
handle_websocket (step ∷ steps) s = handle_websocket steps (handle_websocket_step step s)
