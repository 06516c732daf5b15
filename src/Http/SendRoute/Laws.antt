-- ===== src/Http/SendRoute/Laws.antt =====
-- What a request to send a message leads to.
use sms_server.Base.{
  ℕ, ◌≡◌, ◌≢◌, refl, sym, ◌∙◌, ap, Bool, true, false, not, ◌&&◌, ◌||◌, Bool-cases, List, [], ◌∷◌,
  ◌++◌, none, some, Result-cases, inl, inr, arith, ok, length, Text,
}
use sms_server.Text.{codes, message, equal}
use sms_server.Modem.Types.{Crates, ModemRequest, ModemResponse, error, send_result}
use sms_server.Modem.Sender.{Encoder, Exchange, answered, create_sms_requests, sender_send_sms}
use sms_server.Modem.Sender.Laws.{all_succeed, last_response, send_requests-error}
use sms_server.Sms.Types.{insert_message, outgoing_message, announce}
use sms_server.Sms.Manager.{Surroundings, manager_send_sms, after_sending}
use sms_server.Sms.Manager.Laws.{manager_send_sms_stored}
use sms_server.Http.Types.{
  HttpError, HttpResult, success, failure, bad_request, internal_server_error, SendSmsRequest,
}
use sms_server.Http.SendRoute.{Addresses, receiver, outgoing_of, post_sms_send}

abbrev failed : HttpError → HttpResult Text
failed = failure

failure_status : {e e' : HttpError} → failed e' ≡ failed e → e.status ≡ e'.status
failure_status h = sym (ap status_of h)
  where
    status_of : HttpResult Text → ℕ
    status_of (success t) = 0
    status_of (failure e) = e.status

success_failure : {t : Text} {e : HttpError} → success t ≢ failure e
success_failure = λ h. cc

-- The three checks fail with the status 400.
receiver_turned_down :
    (a : Addresses) (only_international : Bool) (to : Text) (e : HttpError)
    → receiver a only_international to ≡ failure e
    → e.status ≡ bad_request
receiver_turned_down a only_international to e h = elim (Result-cases (a.from_str to)) [
  | inr (reason, q) ↦ failure_status (rw q at h)
  | inl (address, q) ↦ elim (Bool-cases (only_international && not (a.is_international address))) [
    | inl local ↦ failure_status (rw (q, local) at h)
    | inr allowed ↦
        let number = a.to_string address in
        elim (Bool-cases (equal number (codes "+") || equal number (codes ""))) [
          | inl empty ↦ failure_status (rw (q, allowed, empty) at h)
          | inr fine ↦ absurd (success_failure (rw (q, allowed, fine) at h))
        ]
  ]
]

module _ {x : Crates} (show : ModemResponse x → Text) (a : Addresses) (only_international : Bool)
    (s : Surroundings) (p : Encoder) (exchange : ℕ → Exchange x) (counter : ℕ)
    (payload : SendSmsRequest) where
  -- A number that does not pass the checks is answered with the status 400, and nothing else
  -- happens: no command is queued, nothing is stored or announced, and the counter stays.
  post_sms_send_rejected :
      (e : HttpError)
      → receiver a only_international payload.to ≡ failure e
      → (post_sms_send show a only_international s p exchange counter payload
          ≡ record { counter = counter; queued = []; actions = []; response = failure e })
        × (e.status ≡ bad_request)
  unfolding post_sms_send
  post_sms_send_rejected e h = (rw h refl, receiver_turned_down a only_international payload.to e h)

  -- If the number passes the checks, all parts are answered well, the last with the reference
  -- `r`, and the message gets the row `id`, then the response has these two numbers, and the
  -- message was stored with the reference and announced.
  post_sms_send_stored :
      (to : Text) (requests : List ModemRequest) (r id : ℕ)
      → receiver a only_international payload.to ≡ success to
      → create_sms_requests p (outgoing_of payload to) ≡ ok requests
      → all_succeed exchange 0 (length requests) ≡ true
      → last_response exchange 0 (length requests) none ≡ some (send_result r)
      → s.row ≡ ok id
      → let stored = record (s.conversions.from_outgoing (outgoing_of payload to)) {
        message_reference = some r;
      } in
        let sent = post_sms_send show a only_international s p exchange counter payload in
        (sent.response ≡ success (record { message_id = id; reference_id = r }))
        × (sent.actions
            ≡ insert_message stored false
              ∷ announce s.has_broadcaster
                  (outgoing_message (record stored { message_id = some id })))
  unfolding post_sms_send manager_send_sms
  post_sms_send_stored to requests r id valid c all last row =
      rw
        (
          valid,
          manager_send_sms_stored s p exchange counter (outgoing_of payload to) requests r id c all
              last row,
        )
        (refl, refl)

  -- When the modem answers a part of the message with an error, the response does not have the
  -- modem's text: it says that the message was sent but has no number. Nothing is stored.
  pub post_sms_send_refused :
      (to : Text) (before after : List ModemRequest) (request : ModemRequest) (e : Text)
      → receiver a only_international payload.to ≡ success to
      → create_sms_requests p (outgoing_of payload to) ≡ ok (before ++ request ∷ after)
      → all_succeed exchange 0 (length before) ≡ true
      → (exchange (length before)).outcome ≡ answered (error e)
      → let sent = post_sms_send show a only_international s p exchange counter payload in
        (sent.response
          ≡ failure (record {
            status = internal_server_error;
            message = message "Message sent but no message ID returned";
          }))
        × (sent.actions ≡ [])
  unfolding post_sms_send manager_send_sms sender_send_sms after_sending
  post_sms_send_refused to before after request e valid c all refused =
      rw
        (
          valid,
          c,
          (send_requests-error exchange payload.timeout e before request after 0 counter none all
              (ap (λ j. (exchange j).outcome) (omega arith) ∙ refused)).1,
        )
        (refl, refl)
