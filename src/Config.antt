-- ===== src/Config.antt =====
-- src/config.rs: the settings, their defaults, and the checks of the deserialization. Parsing TOML
-- is left to the crates `toml` and `serde`.
pub mod Checks
mod Tests
use sms_server.Base.{ℕ, ◌∷◌, [], Bool, true, false, List, Option, none, some, Text, Bytes}
use sms_server.Text.{codes}
use sms_server.Events.{EventTypes}
use sms_server.Webhooks.{ConfiguredWebhook}

-- With the feature `gpio`.
pub record ModemConfig : Type 0 where
  pub device : Text
  pub baud_rate : ℕ
  pub gnss_enabled : Bool
  pub gnss_report_interval : ℕ
  pub cmd_channel_buffer_size : ℕ
  pub read_buffer_size : ℕ
  pub line_buffer_size : ℕ
  pub gpio_enabled : Bool
  pub gpio_power_pin : ℕ
  pub gpio_repower : Bool

pub record DatabaseConfig : Type 0 where
  pub database_url : Text
  pub encryption_key : Bytes

pub record TlsConfig : Type 0 where
  pub certificate_path : Text
  pub key_path : Text

-- An address is the bytes of an IPv4 address, and a port.
pub record SocketAddr : Type 0 where
  pub ip : Bytes
  pub port : ℕ

pub record HttpConfig : Type 0 where
  pub enabled : Bool
  pub address : SocketAddr
  pub send_international_format_only : Bool
  pub require_authentication : Bool
  pub websocket_enabled : Bool
  pub permissive_cors : Bool
  pub phone_number : Option Text
  pub tls : Option TlsConfig

pub record AppConfig (e : EventTypes) : Type 0 where
  pub database : DatabaseConfig
  pub modem : ModemConfig
  pub http : HttpConfig
  pub webhooks : Option (List (ConfiguredWebhook e))

-- `ModemConfig::default`
unfoldable pub default_modem_config : ModemConfig
default_modem_config = record {
  device = codes "/dev/ttyS0";
  baud_rate = 115200;
  gnss_enabled = false;
  gnss_report_interval = 0;
  cmd_channel_buffer_size = 32;
  read_buffer_size = 4096;
  line_buffer_size = 4096;
  gpio_enabled = false;
  gpio_power_pin = 4;
  gpio_repower = true;
}

abbrev default_http_address : SocketAddr
default_http_address = record { ip = 127 ∷ 0 ∷ 0 ∷ 1 ∷ []; port = 3000 }

-- `HTTPConfig::default`
unfoldable pub default_http_config : HttpConfig
default_http_config = record {
  enabled = false;
  address = default_http_address;
  send_international_format_only = true;
  require_authentication = true;
  websocket_enabled = true;
  permissive_cors = true;
  phone_number = none;
  tls = none;
}
