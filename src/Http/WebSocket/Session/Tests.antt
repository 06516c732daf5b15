-- ===== src/Http/WebSocket/Session/Tests.antt =====
-- A connection that gets two messages and a ping, and is closed.
use sms_server.Base.{◌≡◌, refl, true, false, List, [], ◌∷◌, none, some, arith}
use sms_server.Text.{codes}
use sms_server.Http.WebSocket.Session.{
  ping_received, close_received, text_frame, pong_frame, new_session, SessionStep,
  message_broadcast, message_branch, ping_branch, reader_round, connection_removed,
  handle_websocket,
}
use sms_server.Http.WebSocket.Session.Delivered.{IsDelivered, handle_websocket-IsDelivered}
use sms_server.Http.WebSocket.Session.Ending.{handle_websocket-end}

abbrev visit : List SessionStep
visit =
    message_broadcast (codes "a")
    ∷ reader_round (some (ping_received (1 ∷ 2 ∷ [])))
    ∷ message_broadcast (codes "b")
    ∷ message_branch true
    ∷ ping_branch true
    ∷ []

visited :
    (handle_websocket visit new_session).written
    ≡ text_frame (codes "a") ∷ pong_frame (1 ∷ 2 ∷ []) ∷ []
unfolding handle_websocket
visited = refl

-- What is queued when the socket fails is lost.
socket_failed :
    handle_websocket (message_broadcast (codes "a") ∷ message_branch false ∷ []) new_session
    ≡ record {
      messages = record { queue = []; has_sender = true; has_receiver = false };
      pings = record { queue = []; has_sender = true; has_receiver = false };
      written = [];
    }
unfolding handle_websocket
socket_failed = refl

handle_websocket-IsDelivered_example :
    IsDelivered
      (handle_websocket visit new_session)
      (codes "a" ∷ codes "b" ∷ [])
      ((1 ∷ 2 ∷ []) ∷ [])
handle_websocket-IsDelivered_example = handle_websocket-IsDelivered visit

handle_websocket-end_example :
    (handle_websocket
      (reader_round (some close_received)
        ∷ connection_removed
        ∷ message_branch true
        ∷ reader_round none
        ∷ ping_branch true
        ∷ [])
      (handle_websocket visit new_session)).messages.has_receiver
    ≡ false
unfolding handle_websocket
handle_websocket-end_example =
    handle_websocket-end (some close_received)
      (message_branch true ∷ reader_round none ∷ ping_branch true ∷ [])
      (handle_websocket visit new_session) refl (ground arith)
