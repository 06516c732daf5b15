-- ===== src/Http/WebSocket/Session/Ending.antt =====
-- A connection's writer ends after its reader.
use sms_server.Base.{
  ℕ, suc, ◌+◌, ◌-◌, ◌≤◌, ◌<◌, ◌≡◌, Bool, true, false, List, [], ◌∷◌, Option, none, some, arith,
  Bool-cases, inl, inr, length, if◌then◌else◌,
}
use sms_server.Http.WebSocket.Session.{
  Received, text_received, ping_received, close_received, other_received, receive_error, Session,
  SessionStep, message_broadcast, message_branch, ping_branch, reader_round, connection_removed,
  handle_websocket_step, handle_websocket,
}

-- Whether the reader stops at what it gets.
abbrev pub is_final : Option Received → Bool
is_final none = true
is_final (some close_received) = true
is_final (some receive_error) = true
is_final (some _) = false

abbrev pub queued : Session → ℕ
queued s = length s.messages.queue + length s.pings.queue

abbrev writer_rounds : List SessionStep → ℕ
writer_rounds [] = 0
writer_rounds (message_branch sends ∷ steps) = suc (writer_rounds steps)
writer_rounds (ping_branch sends ∷ steps) = suc (writer_rounds steps)
writer_rounds (_ ∷ steps) = writer_rounds steps

-- How many rounds the writer has at most, once nobody can send to it.
abbrev left : Session → ℕ
left s = if s.messages.has_receiver then suc (queued s) else 0

abbrev SendersGone : Session → Type 0
SendersGone s = (s.messages.has_sender ≡ false) × (s.pings.has_sender ≡ false)

step-left :
    (step : SessionStep) (s : Session)
    → SendersGone s
    → SendersGone (handle_websocket_step step s)
      × (left (handle_websocket_step step s) ≤ left s - writer_rounds (step ∷ []))
unfolding handle_websocket_step
step-left (message_broadcast msg) s (m, p) = ground (arith, m, p)
step-left (message_branch sends) s (m, p) = ground (arith, m, p)
step-left (ping_branch sends) s (m, p) = ground (arith, m, p)
step-left (reader_round item) s (m, p) = ground (arith, m, p)
step-left connection_removed s (m, p) = ground (arith, m, p)

writer_rounds-cons :
    (step : SessionStep) (steps : List SessionStep)
    → writer_rounds (step ∷ steps) ≡ writer_rounds (step ∷ []) + writer_rounds steps
writer_rounds-cons (message_broadcast msg) steps = ground arith
writer_rounds-cons (message_branch sends) steps = ground arith
writer_rounds-cons (ping_branch sends) steps = ground arith
writer_rounds-cons (reader_round item) steps = ground arith
writer_rounds-cons connection_removed steps = ground arith

steps-left :
    (steps : List SessionStep) (s : Session)
    → SendersGone s
    → left (handle_websocket steps s) ≤ left s - writer_rounds steps
unfolding handle_websocket
steps-left [] s gone = ground arith
steps-left (step ∷ steps) s gone =
    let (gone', first) = step-left step s gone in
    let rest = steps-left steps (handle_websocket_step step s) gone' in
    omega (arith, first, rest, writer_rounds-cons step steps)

left-zero : (s : Session) → left s ≤ 0 → s.messages.has_receiver ≡ false
left-zero s h = elim (Bool-cases s.messages.has_receiver) [
  | inl running ↦ absurd (ground (arith, running, h))
  | inr closed ↦ closed
]

closed-SendersGone :
    (item : Option Received) (s : Session)
    → is_final item ≡ true
    → let closed =
        handle_websocket_step connection_removed (handle_websocket_step (reader_round item) s) in
      SendersGone closed × (left closed ≤ suc (queued s))
unfolding handle_websocket_step
closed-SendersGone none s final = ground (arith, final)
closed-SendersGone (some close_received) s final = ground (arith, final)
closed-SendersGone (some receive_error) s final = ground (arith, final)
closed-SendersGone (some (text_received text)) s final = absurd (ground (arith, final))
closed-SendersGone (some (ping_received ping)) s final = absurd (ground (arith, final))
closed-SendersGone (some other_received) s final = absurd (ground (arith, final))

-- Once the reader has ended and the connection is removed, the writer ends too: within one more
-- round than messages and pings are queued, whatever the socket answers and whichever branch each
-- round takes, and whatever else happens between.
pub handle_websocket-end :
    (item : Option Received) (steps : List SessionStep) (s : Session)
    → is_final item ≡ true
    → queued s < writer_rounds steps
    → (handle_websocket (reader_round item ∷ connection_removed ∷ steps) s).messages.has_receiver
      ≡ false
unfolding handle_websocket
handle_websocket-end item steps s final enough =
    let closed =
      handle_websocket_step connection_removed (handle_websocket_step (reader_round item) s) in
    let (gone, few) = closed-SendersGone item s final in
    let rest = steps-left steps closed gone in
    left-zero (handle_websocket steps closed) (omega (arith, few, rest, enough))
