-- ===== src/Sms/Encryption/RoundTrip.antt =====
-- What is encrypted is decrypted again.
use sms_server.Base.{
  ◌≡◌, true, ◌++◌, ok, all, arith, length, Result-cases, ok_injective, inl, inr, sym, subst,
  length-append, take-append, drop-append, Text, Bytes,
}
use sms_server.Text.Utf8.{as_bytes}
use sms_server.Text.Utf8.RoundTrip.{is_char, from_utf8-as_bytes}
use sms_server.Sms.Encryption.{SmsEncryption, Primitives, encrypt, decrypt}

-- What the crates promise: decoding undoes encoding, and a sealed text is opened under the same
-- key and nonce.
pub record IsLawful (p : Primitives) : Type 0 where
  pub decode-encode : (bytes : Bytes) → p.base64_decode (p.base64_encode bytes) ≡ ok bytes
  pub unseal-seal :
      (key nonce bytes sealed : Bytes)
      → p.seal key nonce bytes ≡ ok sealed
      → p.unseal key nonce sealed ≡ ok bytes

module _ (e : SmsEncryption) (lawful : IsLawful e.primitives) where
  decrypt-base64_encode :
      (nonce sealed : Bytes) (plaintext : Text)
      → length nonce ≡ 12
      → e.primitives.unseal e.key nonce sealed ≡ ok (as_bytes plaintext)
      → all is_char plaintext ≡ true
      → decrypt e (e.primitives.base64_encode (nonce ++ sealed)) ≡ ok plaintext
  unfolding decrypt
  decrypt-base64_encode nonce sealed plaintext size opened chars =
      rw
        (
          lawful.decode-encode (nonce ++ sealed),
          sym size,
          take-append nonce sealed,
          drop-append nonce sealed,
          opened,
          from_utf8-as_bytes plaintext chars,
        )
        (ground (arith, length-append nonce sealed, size))

  -- If `encrypt` gives a text, with a nonce of 12 bytes, then `decrypt` under the same key gives
  -- the plaintext back, whatever characters it has.
  pub decrypt-encrypt :
      (nonce : Bytes) (plaintext encrypted : Text)
      → length nonce ≡ 12
      → all is_char plaintext ≡ true
      → encrypt e nonce plaintext ≡ ok encrypted
      → decrypt e encrypted ≡ ok plaintext
  unfolding encrypt
  decrypt-encrypt nonce plaintext encrypted size chars h =
      elim (Result-cases (e.primitives.seal e.key nonce (as_bytes plaintext))) [
        | inl (sealed, q) ↦
            subst (λ t. decrypt e t ≡ ok plaintext) (ok_injective (rw q at h))
              (decrypt-base64_encode nonce sealed plaintext size (lawful.unseal-seal _ _ _ _ q)
                chars)
        | inr (reason, q) ↦ absurd (ground (arith, h, q))
      ]
