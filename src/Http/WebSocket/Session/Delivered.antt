-- ===== src/Http/WebSocket/Session/Delivered.antt =====
-- A connection's messages and pongs go out in order.
use sms_server.Base.{
  ◌≡◌, ◌⊎◌, refl, ap, Bool, true, false, not, ◌&&◌, List, [], ◌∷◌, ◌++◌, append-nil, append_assoc,
  Option, none, some, arith, Bool-cases, inl, inr, if◌then◌else◌, Bytes, Text,
}
use sms_server.Http.WebSocket.Session.{
  Channel, is_linked, enqueue, drop_sender, drop_receiver, Received, text_received, ping_received,
  close_received, other_received, receive_error, Frame, text_frame, pong_frame, Session,
  new_session, SessionStep, message_broadcast, message_branch, ping_branch, reader_round,
  connection_removed, next_message, next_ping, read_frame, end_writer, handle_websocket_step,
  handle_websocket,
}

-- Of what was given to a channel, what was taken from it is the first, what is queued comes next,
-- and nothing is missing while both ends are there.
abbrev IsFifo {ℓ} : {A : Type ℓ} → Channel A → List A → List A → Type ℓ
IsFifo {A = A} c taken given =
    (late : List A) × (given ≡ (taken ++ c.queue) ++ late) × ((late ≡ []) ⊎ (is_linked c ≡ false))

module _ {ℓ} {A : Type ℓ} where
  nothing_late :
      (c : Channel A) (late : List A)
      → is_linked c ≡ true
      → (late ≡ []) ⊎ (is_linked c ≡ false)
      → late ≡ []
  nothing_late c late linked (inl nothing) = nothing
  nothing_late c late linked (inr closed) = absurd (ground (arith, linked, closed))

  enqueue-IsFifo :
      (a : A) (c : Channel A) (taken given : List A)
      → IsFifo c taken given
      → IsFifo (enqueue a c) taken (given ++ a ∷ [])
  enqueue-IsFifo a c taken given (late, split, whole) = elim (Bool-cases (is_linked c)) [
    | inl h ↦
        rw h
          ([], rw (split, nothing_late c late h whole) (simp (append-nil, append_assoc)), inl refl)
    | inr h ↦ rw h (late ++ a ∷ [], rw split (simp (append_assoc)), inr h)
  ]

  take-IsFifo :
      (a : A) (queue : List A) (c : Channel A) (taken given : List A)
      → c.queue ≡ a ∷ queue
      → IsFifo c taken given
      → IsFifo (record c { queue = queue }) (taken ++ a ∷ []) given
  take-IsFifo a queue c taken given q (late, split, whole) =
      (late, rw (split, q) (simp append_assoc), whole)

  drop_sender-IsFifo :
      (c : Channel A) (taken given : List A)
      → IsFifo c taken given
      → IsFifo (drop_sender c) taken given
  drop_sender-IsFifo c taken given (late, split, whole) = (late, split, inr refl)

  drop_receiver-IsFifo :
      (c : Channel A) (taken given : List A)
      → IsFifo c taken given
      → IsFifo (drop_receiver c) taken given
  drop_receiver-IsFifo c taken given (late, split, whole) =
      (c.queue ++ late, rw split (simp (append-nil, append_assoc)), inr (ground arith))

  closed-IsFifo :
      (c : Channel A) (taken given more : List A)
      → is_linked c ≡ false
      → IsFifo c taken given
      → IsFifo c taken (given ++ more)
  closed-IsFifo c taken given more closed (late, split, whole) =
      (late ++ more, rw split (simp append_assoc), inr closed)

-- The texts and the pongs among what was written.
abbrev pub texts : List Frame → List Text
texts [] = []
texts (text_frame msg ∷ frames) = msg ∷ texts frames
texts (pong_frame ping ∷ frames) = texts frames

abbrev pub pongs : List Frame → List Bytes
pongs [] = []
pongs (text_frame msg ∷ frames) = pongs frames
pongs (pong_frame ping ∷ frames) = ping ∷ pongs frames

texts-append : (fs gs : List Frame) → texts (fs ++ gs) ≡ texts fs ++ texts gs
texts-append [] gs = refl
texts-append (text_frame msg ∷ fs) gs = ap (λ ms. msg ∷ ms) (texts-append fs gs)
texts-append (pong_frame ping ∷ fs) gs = texts-append fs gs

pongs-append : (fs gs : List Frame) → pongs (fs ++ gs) ≡ pongs fs ++ pongs gs
pongs-append [] gs = refl
pongs-append (text_frame msg ∷ fs) gs = pongs-append fs gs
pongs-append (pong_frame ping ∷ fs) gs = ap (λ ps. ping ∷ ps) (pongs-append fs gs)

-- What a step gives to the two channels, whether they take it or not.
abbrev message_of : SessionStep → List Text
message_of (message_broadcast msg) = msg ∷ []
message_of _ = []

abbrev ping_of : SessionStep → List Bytes
ping_of (reader_round (some (ping_received ping))) = ping ∷ []
ping_of _ = []

abbrev pub IsDelivered : Session → List Text → List Bytes → Type 0
IsDelivered s ms ps = IsFifo s.messages (texts s.written) ms × IsFifo s.pings (pongs s.written) ps

-- What holds of either branch holds of the `if`.
either_branch :
    (P : Session → Type 0) {x y : Session} (test : Bool)
    → (test ≡ true → P x)
    → (test ≡ false → P y)
    → P (if test then x else y)
either_branch P true then_holds else_holds = then_holds refl
either_branch P false then_holds else_holds = else_holds refl

end_writer-IsDelivered :
    (s : Session) (ms : List Text) (ps : List Bytes)
    → IsDelivered s ms ps
    → IsDelivered (end_writer s) ms ps
end_writer-IsDelivered s ms ps (m, p) =
    (drop_receiver-IsFifo s.messages _ ms m, drop_receiver-IsFifo s.pings _ ps p)

next_message-IsDelivered :
    (sends : Bool) (s : Session) (queue : List Text) (ms : List Text) (ps : List Bytes)
    → s.messages.queue ≡ queue
    → IsDelivered s ms ps
    → IsDelivered (next_message sends s queue) ms ps
next_message-IsDelivered sends s [] ms ps q d =
    either_branch (λ r. IsDelivered r ms ps) s.messages.has_sender (λ h. d)
      (λ h. end_writer-IsDelivered s ms ps d)
next_message-IsDelivered false s (msg ∷ queue) ms ps q d = end_writer-IsDelivered s ms ps d
next_message-IsDelivered true s (msg ∷ queue) ms ps q (m, p) =
    rw (texts-append s.written (text_frame msg ∷ []), pongs-append s.written (text_frame msg ∷ []))
      (take-IsFifo msg queue s.messages _ ms q m, rw (append-nil (pongs s.written)) p)

next_ping-IsDelivered :
    (sends : Bool) (s : Session) (queue : List Bytes) (ms : List Text) (ps : List Bytes)
    → s.pings.queue ≡ queue
    → IsDelivered s ms ps
    → IsDelivered (next_ping sends s queue) ms ps
next_ping-IsDelivered sends s [] ms ps q d =
    either_branch (λ r. IsDelivered r ms ps) s.pings.has_sender (λ h. d)
      (λ h. end_writer-IsDelivered s ms ps d)
next_ping-IsDelivered false s (ping ∷ queue) ms ps q d = end_writer-IsDelivered s ms ps d
next_ping-IsDelivered true s (ping ∷ queue) ms ps q (m, p) =
    rw
      (texts-append s.written (pong_frame ping ∷ []), pongs-append s.written (pong_frame ping ∷ []))
      (rw (append-nil (texts s.written)) m, take-IsFifo ping queue s.pings _ ps q p)

read_frame-IsDelivered :
    (item : Option Received) (s : Session) (ms : List Text) (ps : List Bytes)
    → IsDelivered s ms ps
    → IsDelivered (read_frame item s) ms (ps ++ ping_of (reader_round item))
read_frame-IsDelivered none s ms ps (m, p) =
    (m, rw (append-nil ps) (drop_sender-IsFifo s.pings _ ps p))
read_frame-IsDelivered (some (text_received text)) s ms ps (m, p) = (m, rw (append-nil ps) p)
read_frame-IsDelivered (some other_received) s ms ps (m, p) = (m, rw (append-nil ps) p)
read_frame-IsDelivered (some close_received) s ms ps (m, p) =
    (m, rw (append-nil ps) (drop_sender-IsFifo s.pings _ ps p))
read_frame-IsDelivered (some receive_error) s ms ps (m, p) =
    (m, rw (append-nil ps) (drop_sender-IsFifo s.pings _ ps p))
read_frame-IsDelivered (some (ping_received ping)) s ms ps (m, p) =
    either_branch (λ r. IsDelivered r ms (ps ++ ping ∷ [])) s.pings.has_receiver
      (λ h. (m, enqueue-IsFifo ping s.pings _ ps p))
      (λ h. (
        m,
        drop_sender-IsFifo s.pings _ (ps ++ ping ∷ [])
            (closed-IsFifo s.pings _ ps (ping ∷ []) (ground (arith, h)) p),
      ))

step-IsDelivered :
    (step : SessionStep) (s : Session) (ms : List Text) (ps : List Bytes)
    → IsDelivered s ms ps
    → IsDelivered (handle_websocket_step step s) (ms ++ message_of step) (ps ++ ping_of step)
unfolding handle_websocket_step
step-IsDelivered (message_broadcast msg) s ms ps (m, p) =
    (enqueue-IsFifo msg s.messages _ ms m, rw (append-nil ps) p)
step-IsDelivered (message_branch sends) s ms ps d =
    rw (append-nil ms, append-nil ps)
      (either_branch (λ r. IsDelivered r ms ps) s.messages.has_receiver
        (λ h. next_message-IsDelivered sends s s.messages.queue ms ps refl d) (λ h. d))
step-IsDelivered (ping_branch sends) s ms ps d =
    rw (append-nil ms, append-nil ps)
      (either_branch (λ r. IsDelivered r ms ps) s.messages.has_receiver
        (λ h. next_ping-IsDelivered sends s s.pings.queue ms ps refl d) (λ h. d))
step-IsDelivered (reader_round item) s ms ps (m, p) = rw (append-nil ms) (
    either_branch (λ r. IsDelivered r ms (ps ++ ping_of (reader_round item))) s.pings.has_sender
      (λ h. read_frame-IsDelivered item s ms ps (m, p))
      (λ h. (m, closed-IsFifo s.pings _ ps _ (ground (arith, h)) p)))
step-IsDelivered connection_removed s ms ps (m, p) =
    rw (append-nil ms, append-nil ps)
      (either_branch (λ r. IsDelivered r ms ps)
        (not (s.messages.has_receiver && s.pings.has_sender))
        (λ h. (drop_sender-IsFifo s.messages _ ms m, p)) (λ h. (m, p)))

abbrev messages_of : List SessionStep → List Text
messages_of [] = []
messages_of (step ∷ steps) = message_of step ++ messages_of steps

abbrev pings_of : List SessionStep → List Bytes
pings_of [] = []
pings_of (step ∷ steps) = ping_of step ++ pings_of steps

steps-IsDelivered :
    (steps : List SessionStep) (s : Session) (ms : List Text) (ps : List Bytes)
    → IsDelivered s ms ps
    → IsDelivered (handle_websocket steps s) (ms ++ messages_of steps) (ps ++ pings_of steps)
unfolding handle_websocket
steps-IsDelivered [] s ms ps d = rw (append-nil ms, append-nil ps) d
steps-IsDelivered (step ∷ steps) s ms ps d =
    rw⁻¹
      (
        append_assoc ms (message_of step) (messages_of steps),
        append_assoc ps (ping_of step) (pings_of steps),
      )
      (steps-IsDelivered steps (handle_websocket_step step s) (ms ++ message_of step)
        (ps ++ ping_of step) (step-IsDelivered step s ms ps d))

-- In any interleaving of the broadcasts and the two tasks of a connection: the texts that are
-- written are the first of the messages sent to it, and the pongs the first of the pings received,
-- each once and in order. While the writer runs and the manager knows the connection, the messages
-- that are not written are just those that are queued; while both tasks run, so are the pings.
pub handle_websocket-IsDelivered :
    (steps : List SessionStep)
    → IsDelivered (handle_websocket steps new_session) (messages_of steps) (pings_of steps)
handle_websocket-IsDelivered steps =
    steps-IsDelivered steps new_session [] [] (([], refl, inl refl), ([], refl, inl refl))
