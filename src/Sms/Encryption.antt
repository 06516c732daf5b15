-- ===== src/Sms/Encryption.antt =====
-- `SMSEncryption` of src/sms/encryption.rs. The crates `aes-gcm` and `base64` are parameters.
pub mod RoundTrip
mod Tests
use sms_server.Base.{
  ℕ, List, ◌++◌, Option, Result, ok, err, ◌>>=◌, ok_or, ltb, length, take, drop, if◌then◌else◌,
  Text, Bytes,
}
use sms_server.Text.{message}
use sms_server.Text.Utf8.{as_bytes, from_utf8}

-- The engine `STANDARD`, and a cipher for its key. An error is its text.
pub record Primitives : Type 0 where
  pub base64_encode : Bytes → Text
  pub base64_decode : Text → Result Bytes
  pub seal : Bytes → Bytes → Bytes → Result Bytes
  pub unseal : Bytes → Bytes → Bytes → Result Bytes

-- `cipher`, by its key.
pub record SmsEncryption : Type 0 where
  pub primitives : Primitives
  pub key : Bytes

abbrev nonce_size : ℕ
nonce_size = 12

-- The nonce is what the generator of random numbers fills in: 12 bytes.
unfoldable pub encrypt : SmsEncryption → Bytes → Text → Result Text
encrypt e nonce_bytes plaintext = do
  ciphertext ← e.primitives.seal e.key nonce_bytes (as_bytes plaintext)
  ok (e.primitives.base64_encode (nonce_bytes ++ ciphertext))

unfoldable pub decrypt : SmsEncryption → Text → Result Text
decrypt e encrypted_data = do
  encrypted_bytes ← e.primitives.base64_decode encrypted_data
  if ltb (length encrypted_bytes) nonce_size
      then err (message "Invalid encrypted data length")
      else (do
        plaintext ←
            e.primitives.unseal e.key (take nonce_size encrypted_bytes)
              (drop nonce_size encrypted_bytes)
        ok_or (message "UTF-8 conversion failed") (from_utf8 plaintext))
