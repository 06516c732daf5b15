-- ===== src/Modem/StateMachine/SmsSession.antt =====
-- A message's whole exchange, from the command over the prompt to the confirmation.
use sms_server.Base.{
  ℕ, ◌<◌, ◌≡◌, refl, ap, ◌∙◌, Bool, true, false, ◌&&◌, [], ◌∷◌, ◌++◌, append_assoc, Option, Result,
  ok, err, arith, ◌==◌, holds_below, holds_below-lt, Text,
}
use sms_server.Text.{
  codes, trim, trim_end, is_whitespace, equal, ends_with, starts_with, lines as text_lines,
}
use sms_server.Text.Laws.{equal→≡}
use sms_server.Text.Utf8.{as_bytes}
use sms_server.Text.Number.{decimal, parse_u8}
use sms_server.Modem.Types.{Crates, send_sms, send_result, ModemEvent, from_header}
use sms_server.Modem.Buffer.{LineEvent}
use sms_server.Modem.Commands.{
  write, reply, Sender, Env, waiting_for_ok, waiting_for_prompt, OutgoingCommand, new, is_complete,
}
use sms_server.Modem.Parsers.{parse_cmgs_result}
use sms_server.Modem.Handlers.{query_command, command_sender, prompt_handler, command_responder}
use sms_server.Modem.StateMachine.{
  CommandExecution, StateMachineState, idle, command, Step, start_command, new_execution,
  transition_state, process_event, process_command, set_command_state,
}
use sms_server.Modem.StateMachine.Lines.{IsQuiet, unlines, feed_lines}
use sms_server.Modem.StateMachine.Session.{IsLast, exchange}

-- The line that confirms the message with reference `n`, and the two lines as they are kept.
abbrev pub confirmation : ℕ → Text
confirmation n = codes "+CMGS: " ++ decimal n

abbrev confirmed : ℕ → Text
confirmed n = confirmation n ++ codes "\nOK\n"

abbrev is_confirmed : Text → ℕ → Result ℕ → Bool
is_confirmed response n (ok m) = ends_with (codes "OK") (trim_end response) && m == n
is_confirmed response n (err e) = false

confirmation_table : holds_below (λ n. equal (trim (confirmation n)) (confirmation n)) 256 ≡ true
unfolding holds_below trim is_whitespace equal decimal
confirmation_table = refl

confirmed_table :
    holds_below (λ n. is_confirmed (confirmed n) n (parse_cmgs_result (confirmed n))) 256 ≡ true
unfolding holds_below trim_end is_whitespace ends_with decimal parse_cmgs_result text_lines
    starts_with trim parse_u8
confirmed_table = refl

trim-confirmation : (n : ℕ) → n < 256 → trim (confirmation n) ≡ confirmation n
trim-confirmation n h = equal→≡ _ _ (
    holds_below-lt (λ n. equal (trim (confirmation n)) (confirmation n)) 256 confirmation_table n h)

is_confirmed_lem :
    (response : Text) (n : ℕ) (r : Result ℕ)
    → is_confirmed response n r ≡ true
    → (ends_with (codes "OK") (trim_end response) ≡ true) × (r ≡ ok n)
is_confirmed_lem response n (ok m) h = ground arith
is_confirmed_lem response n (err e) h = cc

responder-confirmed :
    (x : Crates) (len : ℕ) (pdu : Text) (n : ℕ)
    → n < 256
    → command_responder x (send_sms len pdu) (confirmed n) ≡ ok (send_result n)
unfolding command_responder
responder-confirmed x len pdu n h =
    let table =
      holds_below-lt (λ n. is_confirmed (confirmed n) n (parse_cmgs_result (confirmed n))) 256
        confirmed_table n h in
    let (ends, parsed) = is_confirmed_lem (confirmed n) n (parse_cmgs_result (confirmed n)) table in
    rw (ends, parsed)

trim_ok : trim (codes "OK") ≡ codes "OK"
unfolding trim is_whitespace
trim_ok = refl

confirmation-IsQuiet : (n : ℕ) → n < 256 → IsQuiet waiting_for_ok (confirmation n)
confirmation-IsQuiet n h = record {
  no_header = rw (trim-confirmation n h) (unfold from_header starts_with equal in refl);
  no_end = rw (trim-confirmation n h) (unfold is_complete starts_with equal in refl);
}

ok-IsLast : IsLast waiting_for_ok (codes "OK")
unfolding trim is_whitespace from_header starts_with equal is_complete
ok-IsLast = record { no_header = refl; ends = refl }

module _ {x : Crates} (env : Env x) (show : StateMachineState → ModemEvent → Text) where
  start_sms :
      (c : OutgoingCommand) (len : ℕ) (pdu : Text)
      → env.worker_open ≡ true
      → c.request ≡ send_sms len pdu
      → start_command env idle c ≡ record {
        state = command (new_execution env.now c waiting_for_prompt);
        outputs = write (as_bytes (query_command (send_sms len pdu))) ∷ [];
        result = ok tt;
      }
  unfolding start_command command_sender
  start_sms c len pdu w q = ground arith

  transition_prompt :
      (e : CommandExecution) (len : ℕ) (pdu text : Text)
      → env.worker_open ≡ true
      → e.command.request ≡ send_sms len pdu
      → transition_state env show (command e) (LineEvent.prompt text) ≡ record {
        state = command (set_command_state env e waiting_for_ok);
        outputs = write (as_bytes pdu ++ 0x1a ∷ []) ∷ [];
        result = ok tt;
      }
  unfolding transition_state process_event process_command prompt_handler
  transition_prompt e len pdu text w q = ground arith

  answer_confirmed :
      (len : ℕ) (pdu : Text) (n : ℕ)
      → n < 256
      → command_responder x
          (send_sms len pdu)
          (unlines (confirmation n ∷ []) ++ trim (codes "OK") ++ b'\n' ∷ [])
        ≡ ok (send_result n)
  answer_confirmed len pdu n h =
      let same : unlines (confirmation n ∷ []) ++ trim (codes "OK") ++ b'\n' ∷ [] ≡ confirmed n =
        rw (trim-confirmation n h, trim_ok) (simp append_assoc) in
      rw same (responder-confirmed x len pdu n h)

  -- A message is sent with the worker's channel open and a caller who listens: the command line
  -- with the length is written first; at the modem's prompt, whatever its text, the PDU and
  -- control-Z; and when the modem then confirms reference `n` and says OK, the caller gets `n`,
  -- once, and the machine is idle. No step fails.
  pub sms_session :
      (sequence : ℕ) (tx : Sender) (len : ℕ) (pdu : Text) (timeout : Option ℕ) (text : Text) (n : ℕ)
      → env.worker_open ≡ true
      → env.listening tx ≡ true
      → n < 256
      → let started = start_command env idle (new sequence tx (send_sms len pdu) timeout) in
        let prompted = transition_state env show started.state (LineEvent.prompt text) in
        let done = feed_lines env show prompted.state (confirmation n ∷ codes "OK" ∷ []) in
        (started.outputs ≡ write (as_bytes (codes "AT+CMGS=" ++ decimal len ++ codes "\r\n")) ∷ [])
        × (started.result ≡ ok tt)
        × (prompted.outputs ≡ write (as_bytes pdu ++ 0x1a ∷ []) ∷ [])
        × (prompted.result ≡ ok tt)
        × (done ≡ record { state = idle; outputs = reply tx (send_result n) ∷ []; result = ok tt })
  unfolding new new_execution
  sms_session sequence tx len pdu timeout text n w h small =
      let c = new sequence tx (send_sms len pdu) timeout in
      let started = start_sms c len pdu w refl in
      let e = new_execution env.now c waiting_for_prompt in
      let prompted = transition_prompt e len pdu text w refl in
      let e' = set_command_state env e waiting_for_ok in
      let done =
        exchange env show e' tx (confirmation n ∷ []) (codes "OK") refl h
          (confirmation-IsQuiet n small, tt) ok-IsLast in
      (
        ap (λ (s : Step x (Unit {0})). s.outputs) started ∙ (unfold query_command in refl),
        ap (λ (s : Step x (Unit {0})). s.result) started,
        rw started (ap (λ (s : Step x (Unit {0})). s.outputs) prompted),
        rw started (ap (λ (s : Step x (Unit {0})). s.result) prompted),
        rw (started, prompted) (done ∙ rw (answer_confirmed len pdu n small)),
      )
