-- ===== src/Events/Broadcaster.antt =====
-- `EventBroadcaster` of src/events.rs, and the queue of `WebhookSender` in src/webhooks.rs.
pub mod Delivered
mod Tests
use sms_server.Base.{
  ℕ, Bool, true, false, ◌||◌, List, [], ◌∷◌, ◌++◌, Option, none, some, if◌then◌else◌, Text,
}
use sms_server.Text.{is_some}
use sms_server.Events.{EventTypes}
use sms_server.Webhooks.{ConfiguredWebhook, EventsMap, process_with}
use sms_server.Http.WebSocket.{StoredConnection, broadcast}

module _ (e : EventTypes) where
  -- The events in the unbounded queue of the webhook worker, the connections of the websockets,
  -- and what has been sent on their channels.
  pub record EventBroadcaster : Type 0 where
    pub webhooks : Option (List (e.Event))
    pub websocket : Option (List StoredConnection)
    pub sent : List (ℕ × Text)

  abbrev queue_of : Option (List (ConfiguredWebhook e)) → Option (List (e.Event))
  queue_of none = none
  queue_of (some webhooks) = some []

  abbrev connections_of : Bool → Option (List StoredConnection)
  connections_of true = some []
  connections_of false = none

  -- `new`: no broadcaster where there is nothing to broadcast to; the flag says whether there is
  -- a webhook worker's task.
  unfoldable pub new_broadcaster :
      Option (List (ConfiguredWebhook e)) → Bool → Option EventBroadcaster × Bool
  new_broadcaster configured websocket_enabled =
      let webhook_sender = queue_of configured in
      let websocket = connections_of websocket_enabled in
      (
        (if is_some webhook_sender || is_some websocket
            then some (record { webhooks = webhook_sender; websocket = websocket; sent = [] })
            else none),
        is_some webhook_sender,
      )

  -- `WebhookSender::send`, where `lives` says whether the worker still has the queue's receiver: it
  -- is dropped when the worker panics, and an event that is sent then is only logged.
  abbrev queue_event : Bool → e.Event → Option (List (e.Event)) → Option (List (e.Event))
  queue_event lives event none = none
  queue_event lives event (some queue) = some (if lives then queue ++ event ∷ [] else queue)

  abbrev to_websockets :
      (ℕ → Bool) → e.Event → EventBroadcaster → Option (List StoredConnection) → EventBroadcaster
  to_websockets is_open event b none = b
  to_websockets is_open event b (some cs) =
      let r = broadcast e is_open cs event in
      record b { websocket = some r.connections; sent = b.sent ++ r.sent }

  -- `broadcast`: the webhooks first, then the websockets.
  unfoldable pub broadcast_event : Bool → (ℕ → Bool) → EventBroadcaster → e.Event → EventBroadcaster
  broadcast_event lives is_open b event =
      to_websockets is_open event (record b { webhooks = queue_event lives event b.webhooks })
        b.websocket

  -- The task of `WebhookSender::new`: `WebhookWorker::run` on the events of its queue, with the
  -- calls of each, if `WebhookWorker::new` has given a worker and has not panicked.
  unfoldable pub run_worker :
      Option (EventsMap e)
      → List (ConfiguredWebhook e)
      → List (e.Event)
      → List (e.Event × Option (List (ConfiguredWebhook e)))
  run_worker none webhooks queue = []
  run_worker (some events_map) webhooks [] = []
  run_worker (some events_map) webhooks (event ∷ queue) =
      (event, process_with e webhooks events_map event)
      ∷ run_worker (some events_map) webhooks queue
