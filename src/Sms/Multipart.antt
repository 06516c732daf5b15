-- ===== src/Sms/Multipart.antt =====
-- src/sms/multipart.rs: the parts of a concatenated message, put together as they arrive.
pub mod Parts
pub mod Counts
pub mod Whole
mod Tests
use sms_server.Base.{
  ℕ, ◌+◌, ◌-◌, ◌*◌, Bool, true, false, List, [], ◌∷◌, ◌++◌, Option, none, some, Result, ok, err,
  ltb, leb, if◌then◌else◌, length, get_elem?, set, replicate, Text,
}
use sms_server.Text.{codes, message, ends_with, strip_suffix}
use sms_server.Text.Utf8.{as_bytes}
use sms_server.Modem.Types.{SmsIncomingMessage, from_secs}
use sms_server.Sms.Types.{SmsMessage, Conversions}

-- `MULTIPART_MESSAGES_STALLED_DURATION`
abbrev pub stalled_duration : ℕ
stalled_duration = from_secs (30 * 60)

pub record SmsMultipartMessages : Type 0 where
  pub total_size : ℕ
  pub last_updated : ℕ
  pub first_message : Option SmsIncomingMessage
  pub text_len : ℕ
  pub text_parts : List (Option Text)
  pub received_count : ℕ

-- The first argument of an operation is the clock, in nanoseconds.
unfoldable pub with_capacity : ℕ → ℕ → SmsMultipartMessages
with_capacity now total_size = record {
  total_size = total_size;
  last_updated = now;
  first_message = none;
  text_len = 0;
  text_parts = replicate total_size none;
  received_count = 0;
}

abbrev unwrap_or : Text → Option Text → Text
unwrap_or default none = default
unwrap_or default (some s) = s

-- The content without the separator at its end.
unfoldable pub without_separator : Text → Text
without_separator content =
    if ends_with (codes "@") content
    then unwrap_or content (strip_suffix (codes "@") content)
    else content

-- The part is in range and has not come yet.
abbrev pub vacant : Option (Option Text) → Bool
vacant (some none) = true
vacant (some (some text)) = false
vacant none = false

abbrev or_first : Option SmsIncomingMessage → SmsIncomingMessage → Option SmsIncomingMessage
or_first none message = some message
or_first (some first) message = some first

-- The part counts from 1; 0 is taken for 1.
unfoldable pub store : SmsMultipartMessages → Text → ℕ → SmsMultipartMessages
store m text idx =
    if vacant (get_elem? m.text_parts idx)
    then record m {
      text_len = m.text_len + length (as_bytes text);
      text_parts = set m.text_parts idx (some text);
      received_count = m.received_count + 1;
    }
    else m

unfoldable pub add_message :
    ℕ → SmsMultipartMessages → SmsIncomingMessage → ℕ → SmsMultipartMessages × Bool
add_message now m message index =
    let stored =
      store (record m { last_updated = now }) (without_separator message.content) (index - 1) in
    let updated = record stored { first_message = or_first stored.first_message message } in
    (updated, leb updated.total_size updated.received_count)

-- `iter().flatten()`, appended in order.
abbrev pub flatten : List (Option Text) → Text
flatten [] = []
flatten (none ∷ parts) = flatten parts
flatten (some text ∷ parts) = text ++ flatten parts

unfoldable pub compile : Conversions → SmsMultipartMessages → Result SmsMessage
compile c m = elim m.first_message [
  | none ↦ err (message "Missing required first message to convert into SMSMessage!")
  | some first ↦ ok (record (c.from_incoming first) { message_content = flatten m.text_parts })
]

unfoldable pub is_stalled : ℕ → SmsMultipartMessages → Bool
is_stalled now m = ltb stalled_duration (now - m.last_updated)
