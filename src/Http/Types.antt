-- ===== src/Http/Types.antt =====
-- The requests and responses of src/http/types.rs, and those of the crate `sms-types` that the
-- routes give.
use sms_server.Base.{ℕ, Bool, List, Option, none, some, Result, ok, err, Text}
use sms_server.Base.Int.{ℤ}
use sms_server.Modem.Commands.{OutgoingCommand}

pub record HttpError : Type 0 where
  pub status : ℕ
  pub message : Text

-- `HttpResult`
pub data HttpResult {ℓ} (A : Type ℓ) : Type ℓ where
  success : A → HttpResult A
  failure : HttpError → HttpResult A

infixl 5 ◌>>=◌
abbrev pub ◌>>=◌ {ℓ κ} :
    {A : Type ℓ} {B : Type κ} → HttpResult A → (A → HttpResult B) → HttpResult B
success a >>= f = f a
failure e >>= f = failure e

abbrev pub bad_request : ℕ
bad_request = 400

abbrev pub unauthorized : ℕ
unauthorized = 401

abbrev pub not_found : ℕ
not_found = 404

abbrev pub internal_server_error : ℕ
internal_server_error = 500

-- `map_err` into an error with a status
abbrev pub or_status {ℓ} : {A : Type ℓ} → ℕ → Result A → HttpResult A
or_status code (ok a) = success a
or_status code (err e) = failure (record { status = code; message = e })

-- `HttpResult::ok`
abbrev pub to_option {ℓ} : {A : Type ℓ} → HttpResult A → Option A
to_option (success a) = some a
to_option (failure e) = none

pub record PhoneNumberFetchRequest : Type 0 where
  pub phone_number : Text
  pub limit : Option ℕ
  pub offset : Option ℕ
  pub reverse : Bool

pub record MessageIdFetchRequest : Type 0 where
  pub message_id : ℕ
  pub limit : Option ℕ
  pub offset : Option ℕ
  pub reverse : Bool

pub record GlobalFetchRequest : Type 0 where
  pub limit : Option ℕ
  pub offset : Option ℕ
  pub reverse : Bool

pub record SendSmsRequest : Type 0 where
  pub to : Text
  pub content : Text
  pub flash : Option Bool
  pub validity_period : Option ℕ
  pub timeout : Option ℕ

pub record SetFriendlyNameRequest : Type 0 where
  pub phone_number : Text
  pub friendly_name : Option Text

pub record NetworkStatusResponse : Type 0 where
  pub registration : ℕ
  pub technology : ℕ

pub record SignalStrengthResponse : Type 0 where
  pub rssi : ℤ
  pub ber : ℤ

pub record NetworkOperatorResponse : Type 0 where
  pub status : ℕ
  pub format : ℕ
  pub operator : Text

-- The voltage is kept in millivolts.
pub record BatteryLevelResponse : Type 0 where
  pub status : ℕ
  pub charge : ℕ
  pub voltage : ℕ

pub record SmsSendResponse : Type 0 where
  pub message_id : ℕ
  pub reference_id : ℕ

pub record DeviceInfoResponse : Type 0 where
  pub version : Text
  pub phone_number : Option Text
  pub service_provider : Option Text
  pub network_operator : Option NetworkOperatorResponse
  pub network_status : Option NetworkStatusResponse
  pub battery : Option BatteryLevelResponse
  pub signal : Option SignalStrengthResponse

-- What a route that talks to the modem leaves: the sequence counter, the commands that were queued,
-- and the response.
pub record Handled {ℓ} (A : Type ℓ) : Type ℓ where
  pub counter : ℕ
  pub queued : List OutgoingCommand
  pub response : HttpResult A
