-- ===== src/Sms/Encryption/Tests.antt =====
-- Encryption with a sample cipher, which puts a tag in front of the plaintext.
use sms_server.Base.{◌≡◌, refl, ◌∷◌, ◌++◌, ok, err, replicate, Text, Bytes}
use sms_server.Text.{codes, message}
use sms_server.Text.Utf8.{as_bytes}
use sms_server.Sms.Encryption.{encrypt, decrypt}
use sms_server.Sms.Encryption.RoundTrip.{decrypt-encrypt}
use sms_server.Sms.Samples.{encryption, encryption-IsLawful}

abbrev twelve : Bytes
twelve = replicate 12 7

-- A text with characters of one to four bytes.
abbrev greeting : Text
greeting = codes "hé€😀"

abbrev tampered : Text
tampered = codes "abc"

too_short : decrypt encryption tampered ≡ err (codes "Invalid encrypted data length")
unfolding decrypt message
too_short = refl

decrypt-encrypt_example : decrypt encryption (twelve ++ 99 ∷ as_bytes greeting) ≡ ok greeting
unfolding encrypt
decrypt-encrypt_example =
    decrypt-encrypt encryption encryption-IsLawful twelve greeting _ refl refl refl
