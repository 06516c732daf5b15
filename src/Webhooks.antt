-- ===== src/Webhooks.antt =====
-- src/webhooks.rs: which webhooks an event goes to, what counts as a success, and the client.
pub mod Dispatch
pub mod Certificates
mod Tests
use sms_server.Base.{
  ℕ, zero, suc, ◌+◌, Bool, true, false, not, ◌&&◌, List, [], ◌∷◌, ◌++◌, map, Option, none, some,
  Result, ok, err, get_elem?, leb, ltb, ◌==◌, if◌then◌else◌, Text,
}
use sms_server.Text.{message}
use sms_server.Text.Number.{decimal}
use sms_server.Events.{EventTypes}

-- `ConfiguredWebhook` of src/config.rs, by kinds of event.
pub record ConfiguredWebhook (e : EventTypes) : Type 0 where
  pub url : Text
  pub expected_status : Option ℕ
  pub events : List (e.EventKind)
  pub headers : Option (List (Text × Text))
  pub certificate_path : Option Text

-- What a request meets: no answer, or a status.
pub data Answer : Type 0 where
  network_error : Answer
  status : ℕ → Answer

module _ (e : EventTypes) where
  -- The map from kinds to indices, as a function.
  abbrev pub EventsMap : Type 0
  EventsMap = e.EventKind → List ℕ

  -- `entry(*event).or_default().push(idx)`
  abbrev pub push_index : e.EventKind → ℕ → EventsMap → EventsMap
  push_index event idx events_map =
      λ k. if e.same event k then events_map k ++ idx ∷ [] else events_map k

  abbrev pub push_events : ℕ → List (e.EventKind) → EventsMap → EventsMap
  push_events idx [] events_map = events_map
  push_events idx (event ∷ events) events_map =
      push_events idx events (push_index event idx events_map)

  -- The two loops of `WebhookWorker::new`, from the index `idx` on.
  unfoldable pub fill_events_map : ℕ → List (ConfiguredWebhook e) → EventsMap → EventsMap
  fill_events_map idx [] events_map = events_map
  fill_events_map idx (webhook ∷ webhooks) events_map =
      fill_events_map (suc idx) webhooks (push_events idx webhook.events events_map)

  unfoldable pub new_events_map : List (ConfiguredWebhook e) → EventsMap
  unfolding fill_events_map
  new_events_map webhooks = fill_events_map 0 webhooks (λ k. [])

  abbrev cons_webhook :
      Option (ConfiguredWebhook e)
      → Option (List (ConfiguredWebhook e))
      → Option (List (ConfiguredWebhook e))
  cons_webhook (some webhook) (some webhooks) = some (webhook ∷ webhooks)
  cons_webhook _ _ = none

  -- An index out of bounds is a panic: `none`.
  abbrev pub fetch : List (ConfiguredWebhook e) → List ℕ → Option (List (ConfiguredWebhook e))
  fetch webhooks [] = some []
  fetch webhooks (i ∷ indices) = cons_webhook (get_elem? webhooks i) (fetch webhooks indices)

  -- `process`, with the worker's `events_map`: the webhooks that are called, in the order in which
  -- the stream starts them, at most ten at a time.
  abbrev pub process_with :
      List (ConfiguredWebhook e) → EventsMap → e.Event → Option (List (ConfiguredWebhook e))
  process_with webhooks events_map event = fetch webhooks (events_map (e.kind_of event))

  unfoldable pub process :
      List (ConfiguredWebhook e) → e.Event → Option (List (ConfiguredWebhook e))
  unfolding new_events_map
  process webhooks event = process_with webhooks (new_events_map webhooks) event

  abbrev pub is_success : ℕ → Bool
  is_success code = leb 200 code && ltb code 300

  -- `show` writes a status.
  abbrev judge : (ℕ → Text) → Option ℕ → ℕ → Result (Unit {0})
  judge show (some expected) code =
      if code == expected
      then ok tt
      else err (
          message "Got " ++ decimal code ++ message " expected " ++ decimal expected ++ message "!")
  judge show none code =
      if is_success code then ok tt else err (message "Unsuccessful status " ++ show code)

  -- The request posts the event, with the webhook's headers, if they could be made.
  unfoldable pub execute_webhook : (ℕ → Text) → ConfiguredWebhook e → Answer → Result (Unit {0})
  execute_webhook show webhook network_error = err (message "Network error")
  execute_webhook show webhook (status code) = judge show webhook.expected_status code
