-- ===== src/Http/DbRoutes.antt =====
-- The routes of src/http/routes.rs that ask the database or the server itself.
use sms_server.Base.{ℕ, Bool, true, false, List, map, Option, none, some, Result, Text}
use sms_server.Text.{message}
use sms_server.Events.{EventTypes}
use sms_server.Sms.Types.{SmsMessage}
use sms_server.Sms.Encryption.{SmsEncryption}
use sms_server.Sms.Database.Schema.{ReportRow, Tables}
use sms_server.Sms.Database.{Statement, update_friendly_name}
use sms_server.Sms.Database.Queries.{
  Sqlite, get_messages, get_latest_numbers, get_delivery_reports, get_friendly_name,
}
use sms_server.Http.Types.{
  HttpResult, success, failure, ◌>>=◌, bad_request, not_found, internal_server_error, or_status,
  PhoneNumberFetchRequest, MessageIdFetchRequest, GlobalFetchRequest, SetFriendlyNameRequest,
}
use sms_server.Http.Query.{get_event_types}

-- `LatestNumberFriendlyNamePair` of the crate `sms-types`
pub record LatestNumber : Type 0 where
  pub number : Text
  pub friendly_name : Option Text

module _ (q : Sqlite) (fails : Bool) (t : Tables) where
  unfoldable db_messages : SmsEncryption → PhoneNumberFetchRequest → HttpResult (List SmsMessage)
  db_messages e payload =
      or_status internal_server_error
        (get_messages q fails e t payload.phone_number payload.limit payload.offset payload.reverse)

  abbrev fields : Option GlobalFetchRequest → Option ℕ × Option ℕ × Bool
  fields (some req) = (req.limit, req.offset, req.reverse)
  fields none = (none, none, false)

  unfoldable db_latest_numbers : Option GlobalFetchRequest → HttpResult (List LatestNumber)
  db_latest_numbers payload = do
    let (limit, offset, reverse) = fields payload
    latest_numbers ←
        or_status internal_server_error (get_latest_numbers q fails t limit offset reverse)
    success
        (map (λ (number, name). record { number = number; friendly_name = name }) latest_numbers)

  unfoldable db_delivery_reports : MessageIdFetchRequest → HttpResult (List ReportRow)
  db_delivery_reports payload = or_status internal_server_error (
      get_delivery_reports q fails t payload.message_id payload.limit payload.offset
        payload.reverse)

abbrev pub done : HttpResult (Unit {0}) → HttpResult Bool
done (success u) = success true
done (failure e) = failure e

unfoldable db_friendly_names_set :
    Statement → Tables → SetFriendlyNameRequest → Tables × HttpResult Bool
db_friendly_names_set s t payload =
    let (t', result) = update_friendly_name s t payload.phone_number payload.friendly_name in
    (t', done (or_status internal_server_error result))

unfoldable db_friendly_names_get : Bool → Tables → Text → HttpResult (Option Text)
db_friendly_names_get fails t phone_number =
    or_status internal_server_error (get_friendly_name fails t phone_number)

-- `EnvFilter::from_str`, and `reload` of the log's filter.
pub record Tracing : Type 1 where
  pub EnvFilter : Type 0
  pub from_str : Text → Result EnvFilter
  pub reload : EnvFilter → Result (Unit {0})

unfoldable sys_set_log_level : Tracing → Text → HttpResult Bool
sys_set_log_level tracing level = do
  filter ← or_status bad_request (tracing.from_str level)
  done (or_status internal_server_error (tracing.reload filter))

-- An upgraded connection with its filter, or the status of the response.
pub data Upgrade (e : EventTypes) : Type 0 where
  upgraded : Option (List (e.EventKind)) → Upgrade e
  refused : ℕ → Text → Upgrade e

unfoldable websocket_upgrade : (e : EventTypes) → Bool → Option Text → Upgrade e
websocket_upgrade e true query_params = upgraded (get_event_types e query_params)
websocket_upgrade e false query_params =
    refused not_found (message "Websocket functionality is disabled!")
