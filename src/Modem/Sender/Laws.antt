-- ===== src/Modem/Sender/Laws.antt =====
-- What the callers' side of the queue sends, and how long it waits.
use sms_server.Base.{
  ℕ, zero, suc, ◌+◌, ◌≤◌, ◌≡◌, refl, sym, ap, ◌∙◌, Bool, true, false, not, ◌&&◌, List, [], ◌∷◌,
  ◌++◌, inl, inr, Option, none, some, Result, ok, err, arith, Bool-cases, length, Text,
}
use sms_server.Modem.Types.{Crates, ModemRequest, send_sms, ModemResponse, error, from_secs}
use sms_server.Modem.Commands.{OutgoingCommand, new, get_request_timeout, next_command_sequence}
use sms_server.Modem.Sender.{
  Outcome, full, closed, channel_closed, timed_out, answered, Exchange, response_timeout,
  send_request, send_requests, is_error, received, continue,
}

-- Whatever timeout a caller gives or leaves out, the caller waits for the response at least a
-- second, the period of the timeout check, longer than the command may take.
response_timeout_outlasts :
    (sequence tx : ℕ) (request : ModemRequest) (timeout : Option ℕ)
    → get_request_timeout (new sequence tx request timeout) + from_secs 1 ≤ response_timeout timeout
unfolding get_request_timeout new response_timeout
response_timeout_outlasts sequence tx (send_sms len pdu) none = ground arith
response_timeout_outlasts sequence tx _ none = ground arith
response_timeout_outlasts sequence tx request (some s) = ground arith

module _ {x : Crates} where
  -- A result that reports success has no error for its response.
  abbrev pub is_fine : Result (Bool × Option (ModemResponse x)) → Bool
  is_fine (ok (true, some response)) = not (is_error response)
  is_fine (ok (true, none)) = true
  is_fine (ok (false, last)) = true
  is_fine (err e) = true

module _ {x : Crates} (exchange : ℕ → Exchange x) where
  abbrev is_success : Outcome x → Bool
  is_success (answered response) = not (is_error response)
  is_success _ = false

  -- The exchanges from the `i`th on, `n` of them, all bring a response that is no error.
  abbrev pub all_succeed : ℕ → ℕ → Bool
  all_succeed i zero = true
  all_succeed i (suc n) = is_success (exchange i).outcome && all_succeed (i + 1) n

  -- One command for each request, with consecutive sequence numbers, which wrap.
  abbrev pub commands : Option ℕ → ℕ → ℕ → List ModemRequest → List OutgoingCommand
  commands timeout i counter [] = []
  commands timeout i counter (request ∷ requests) =
      new counter (exchange i).response_tx request timeout
      ∷ commands timeout (i + 1) (next_command_sequence counter).1 requests

  is_success-answered :
      (o : Outcome x)
      → is_success o ≡ true
      → (response : ModemResponse x) × (o ≡ answered response) × (is_error response ≡ false)
  is_success-answered (answered response) h = (response, refl, ground (arith, h))
  is_success-answered full h = cc
  is_success-answered closed h = cc
  is_success-answered channel_closed h = cc
  is_success-answered timed_out h = cc

  -- A request that succeeds, and the loop behind it.
  send_requests_success :
      (timeout : Option ℕ) (request : ModemRequest) (requests : List ModemRequest) (i counter : ℕ)
      (last : Option (ModemResponse x)) (response : ModemResponse x)
      → (exchange i).outcome ≡ answered response
      → is_error response ≡ false
      → send_requests exchange timeout i counter (request ∷ requests) last ≡ (
          let later =
            send_requests exchange timeout
              (i + 1)
              (next_command_sequence counter).1
              requests
              (some response) in
          record later {
            queued = new counter (exchange i).response_tx request timeout ∷ later.queued;
          })
  unfolding send_requests send_request next_command_sequence
  send_requests_success timeout request requests i counter last response here good =
      ground (arith, here, good)

  -- If the exchanges of the first requests bring responses that are no errors, and that of the
  -- next request an error, then the commands of these are queued, each once and in order, none of
  -- the requests behind is, and the result is the error, with `false`.
  pub send_requests-error :
      (timeout : Option ℕ) (e : Text) (before : List ModemRequest) (request : ModemRequest)
      (after : List ModemRequest) (i counter : ℕ) (last : Option (ModemResponse x))
      → all_succeed i (length before) ≡ true
      → (exchange (i + length before)).outcome ≡ answered (error e)
      → let s = send_requests exchange timeout i counter (before ++ request ∷ after) last in
        (s.queued ≡ commands timeout i counter (before ++ request ∷ []))
        × (s.result ≡ ok (false, some (error e)))
  unfolding send_requests send_request next_command_sequence
  send_requests-error timeout e [] request after i counter last h q =
      let here : (exchange i).outcome ≡ answered (error e) =
        ap (λ j. (exchange j).outcome) (omega arith) ∙ q in
      rw here (refl, refl)
  send_requests-error timeout e (r ∷ before) request after i counter last h q =
      let split : (is_success (exchange i).outcome ≡ true)
          × (all_succeed (i + 1) (length before) ≡ true) =
        ground (arith, h) in
      let (response, here, good) = is_success-answered (exchange i).outcome split.0 in
      let later =
        send_requests-error timeout e before request after (i + 1) (next_command_sequence counter).1
          (some response) split.1 (ap (λ j. (exchange j).outcome) (omega arith) ∙ q) in
      rw
        (send_requests_success timeout r (before ++ request ∷ after) i counter last response here
          good)
        (ap (◌∷◌ (new counter (exchange i).response_tx r timeout)) later.0, later.1)

  abbrev response_of : Outcome x → Option (ModemResponse x)
  response_of (answered response) = some response
  response_of _ = none

  abbrev pub last_response : ℕ → ℕ → Option (ModemResponse x) → Option (ModemResponse x)
  last_response i zero last = last
  last_response i (suc n) last = last_response (i + 1) n (response_of (exchange i).outcome)

  -- If the exchanges of all the requests bring responses that are no errors, then one command for
  -- each is queued, in order, and the result is the last response, with `true`.
  pub send_requests-all_succeed :
      (timeout : Option ℕ) (requests : List ModemRequest) (i counter : ℕ)
      (last : Option (ModemResponse x))
      → all_succeed i (length requests) ≡ true
      → let s = send_requests exchange timeout i counter requests last in
        (s.queued ≡ commands timeout i counter requests)
        × (s.result ≡ ok (true, last_response i (length requests) last))
  unfolding send_requests
  send_requests-all_succeed timeout [] i counter last h = (refl, refl)
  send_requests-all_succeed timeout (r ∷ requests) i counter last h =
      let split : (is_success (exchange i).outcome ≡ true)
          × (all_succeed (i + 1) (length requests) ≡ true) =
        ground (arith, h) in
      let (response, here, good) = is_success-answered (exchange i).outcome split.0 in
      let later =
        send_requests-all_succeed timeout requests (i + 1) (next_command_sequence counter).1
          (some response) split.1 in
      let answer : response_of (exchange i).outcome ≡ some response = ap response_of here in
      rw (send_requests_success timeout r requests i counter last response here good) (
        ap (◌∷◌ (new counter (exchange i).response_tx r timeout)) later.0,
        later.1 ∙ ap (λ l. ok (true, last_response (i + 1) (length requests) l)) (sym answer),
      )

  pub send_requests-is_fine :
      (timeout : Option ℕ) (requests : List ModemRequest) (i counter : ℕ)
      (last : Option (ModemResponse x))
      → is_fine (ok (true, last)) ≡ true
      → is_fine (send_requests exchange timeout i counter requests last).result ≡ true
  unfolding send_requests send_request next_command_sequence
  send_requests-is_fine timeout [] i counter last h = h
  send_requests-is_fine timeout (r ∷ requests) i counter last h =
      outcome_fine (received counter (exchange i).outcome)
        (send_requests-is_fine timeout requests (i + 1) (next_command_sequence counter).1)
    where
      outcome_fine :
          (result : Result (ModemResponse x))
          → ((next : Option (ModemResponse x))
              → is_fine (ok (true, next)) ≡ true
              → is_fine
                  (send_requests exchange timeout
                    (i + 1)
                    (next_command_sequence counter).1
                    requests
                    next).result
                ≡ true)
          → is_fine
              (continue (send_request counter (exchange i) r timeout) result (
                send_requests exchange timeout
                  (i + 1)
                  (next_command_sequence counter).1
                  requests)).result
            ≡ true
      outcome_fine (err e) later = refl
      outcome_fine (ok response) later = elim (Bool-cases (is_error response)) [
        | inl bad ↦ ground (arith, bad)
        | inr good ↦ ground (arith, good, later (some response) (ground (arith, good)))
      ]
