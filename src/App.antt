-- ===== src/App.antt =====
-- src/app.rs: the start of the program's tasks, and what the message task does with what the modem
-- sends.
pub mod Messages
mod Tests
use sms_server.Base.{
  ℕ, Bool, true, false, List, [], ◌∷◌, ◌++◌, Option, none, some, Result, ok, err, ◌>>=◌,
  if◌then◌else◌, Text,
}
use sms_server.Text.{codes, message, is_some}
use sms_server.Events.{EventTypes}
use sms_server.Modem.Types.{
  Crates, ModemStatus, ModemIncomingMessage, sms, report, modem_status_update, network_change,
  position,
}
use sms_server.Sms.Types.{Action}
use sms_server.Sms.Manager.{Surroundings, Managed}
use sms_server.Sms.Receiver.{
  Groups, ReportSurroundings, handle_incoming_sms, handle_delivery_report,
  cleanup_stalled_multipart,
}
use sms_server.Config.{AppConfig}
use sms_server.Events.Broadcaster.{EventBroadcaster, new_broadcaster}
use sms_server.Http.App.{Route, create_app}

-- The two events that this task broadcasts itself.
pub data Announcement (x : Crates) : Type 0 where
  status_update : ModemStatus → ModemStatus → Announcement x
  gnss_position_report : x.PositionReport → Announcement x

-- The groups of parts, what was done to the database and the broadcaster through the receiver, and
-- what was broadcast directly.
pub record Reception (x : Crates) : Type 0 where
  pub groups : Groups
  pub actions : List Action
  pub announced : List (Announcement x)

-- What a message meets: the time, and the answers of the database.
pub record Weather : Type 1 where
  pub now : ℕ
  pub incoming : Surroundings
  pub delivery : ReportSurroundings

-- A step of the two tasks of `start_sms_receiver`, which share the receiver: a message, or a tick
-- of the clean-up's interval at a time.
pub data Step (x : Crates) : Type 1 where
  message_received : Weather → ModemIncomingMessage x → Step x
  cleanup_tick : ℕ → Step x

module _ {x : Crates} (has_broadcaster : Bool) where
  abbrev if_broadcaster : Announcement x → List (Announcement x)
  if_broadcaster a = if has_broadcaster then a ∷ [] else []

  -- What is only logged is left out.
  unfoldable pub handle_modem_message : Weather → Groups → ModemIncomingMessage x → Reception x
  handle_modem_message w groups (sms m) =
      let (groups', actions, result) = handle_incoming_sms w.incoming w.now groups m in
      record { groups = groups'; actions = actions; announced = [] }
  handle_modem_message w groups (report r) = record {
    groups = groups;
    actions = (handle_delivery_report w.delivery r).actions;
    announced = [];
  }
  handle_modem_message w groups (modem_status_update previous current) = record {
    groups = groups;
    actions = [];
    announced = if_broadcaster (status_update previous current);
  }
  handle_modem_message w groups (position location) = record {
    groups = groups;
    actions = [];
    announced = if_broadcaster (gnss_position_report location);
  }
  handle_modem_message w groups (network_change status) = record {
    groups = groups;
    actions = [];
    announced = [];
  }

  abbrev behind : Reception x → Reception x → Reception x
  behind first rest = record rest {
    actions = first.actions ++ rest.actions;
    announced = first.announced ++ rest.announced;
  }

  -- Any interleaving of the two tasks.
  unfoldable pub start_sms_receiver : Groups → List (Step x) → Reception x
  unfolding handle_modem_message
  start_sms_receiver groups [] = record { groups = groups; actions = []; announced = [] }
  start_sms_receiver groups (message_received w m ∷ steps) =
      let first = handle_modem_message w groups m in
      behind first (start_sms_receiver first.groups steps)
  start_sms_receiver groups (cleanup_tick now ∷ steps) =
      start_sms_receiver (cleanup_stalled_multipart now groups) steps

-- What the start meets: the results of `ModemManager::start` and of the connection to the database,
-- the token in the environment, and which features there are.
pub record Start : Type 0 where
  pub modem : Result (Unit {0})
  pub database : Result (Unit {0})
  pub token : Option Text
  pub openapi : Bool
  pub sentry : Bool

abbrev has_websocket : {e : EventTypes} → Option (EventBroadcaster e) → Bool
has_websocket none = false
has_websocket (some broadcaster) = is_some broadcaster.websocket

abbrev named : Bool → Text → List Text
named true name = name ∷ []
named false name = []

-- `start_http_server`: whether there is a task.
abbrev start_http_server : {e : EventTypes} → AppConfig e → Start → Bool → Result Bool
start_http_server config s websocket =
    if config.http.enabled
    then (do app ← create_app config.http websocket s.token s.openapi s.sentry; ok true)
    else ok false

abbrev modem_failure : Result (Unit {0}) → Result (Unit {0})
modem_failure (ok u) = ok u
modem_failure (err e) = err (message "Failed to start ModemManager: " ++ e)

-- `AppHandles::new`: the names of the tasks.
unfoldable pub new_app_handles : {e : EventTypes} → AppConfig e → Start → Result (List Text)
new_app_handles config s = do
  started ← modem_failure s.modem
  connected ← s.database
  let (broadcaster, has_worker) = new_broadcaster _ config.webhooks config.http.websocket_enabled
  http ← start_http_server config s (has_websocket broadcaster)
  ok (
      codes "Modem Handler" ∷ named has_worker (codes "Webhooks Worker")
      ++ codes "Modem Cleanup" ∷ codes "Modem Channel" ∷ named http (codes "HTTP Server"))
