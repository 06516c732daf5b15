-- ===== src/App/Tests.antt =====
-- The tasks of the default settings, and a few messages of the modem.
use sms_server.Base.{ℕ, ◌≡◌, refl, true, false, List, [], ◌∷◌, none, some, ok, err, replicate}
use sms_server.Text.{codes, message}
use sms_server.Events.Samples.{two_kinds}
use sms_server.Modem.Types.{modem_status_update, position, network_change, startup, online}
use sms_server.Modem.Samples.{crates}
use sms_server.Sms.Receiver.{Groups, ReportSurroundings}
use sms_server.Sms.Samples.{surroundings}
use sms_server.Config.{AppConfig, default_modem_config, default_http_config}
use sms_server.Events.Broadcaster.{new_broadcaster}
use sms_server.App.{Weather, Step, message_received, cleanup_tick, new_app_handles, Start}

abbrev config : AppConfig two_kinds
config = record {
  database = record { database_url = codes "sms.db"; encryption_key = replicate 32 7 };
  modem = default_modem_config;
  http = default_http_config;
  webhooks = some [];
}

abbrev begin : Start
begin = record { modem = ok tt; database = ok tt; token = none; openapi = true; sentry = false }

tasks :
    new_app_handles config begin
    ≡ ok (
        codes "Modem Handler"
        ∷ codes "Webhooks Worker"
        ∷ codes "Modem Cleanup"
        ∷ codes "Modem Channel"
        ∷ [])
unfolding new_app_handles default_http_config new_broadcaster
tasks = refl

no_modem :
    new_app_handles config (record begin { modem = err (codes "no port") })
    ≡ err (codes "Failed to start ModemManager: no port")
unfolding new_app_handles message
no_modem = refl

abbrev reports : ReportSurroundings
reports = record {
  MessageStatus = ℕ;
  from_u8 = some;
  is_success = λ status. true;
  is_permanent_error = λ status. false;
  target_message = λ number reference. ok none;
  inserted = ok tt;
  updated = ok tt;
  announces = true;
}

abbrev weather : Weather
weather = record { now = 5; incoming = surroundings; delivery = reports }

abbrev no_groups : Groups
no_groups k = none

abbrev steps : List (Step crates)
steps =
    message_received weather (modem_status_update startup online)
    ∷ cleanup_tick 9
    ∷ message_received weather (network_change 3)
    ∷ message_received weather (position [])
    ∷ []
