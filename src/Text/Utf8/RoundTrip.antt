-- ===== src/Text/Utf8/RoundTrip.antt =====
-- Decoding what `str::as_bytes` gives.
use sms_server.Base.{
  ℕ, ◌+◌, ◌/◌, ◌%◌, ◌<◌, ◌≤◌, ◌≡◌, refl, ◌∙◌, Bool, true, ◌&&◌, ◌||◌, [], ◌∷◌, ◌++◌, some, arith,
  ltb, leb, all, Text, Bytes,
}
use sms_server.Text.Utf8.{
  as_bytes, from_utf8, decode_from, encode_char, idle, decode_in, start, continue,
}

-- A `char`: a code point that is no surrogate.
abbrev pub is_char : ℕ → Bool
is_char c = ltb c 0xd800 || (leb 0xe000 c && ltb c 0x110000)

module _ (c : ℕ) (rest : Bytes) where
  abbrev Decodes : Bytes → Type 0
  unfolding decode_from
  Decodes bytes =
      decode_from idle (bytes ++ rest) ≡ (c ∷ (decode_from idle rest).0, (decode_from idle rest).1)

  one : c < 0x80 → Decodes (c ∷ [])
  unfolding decode_from decode_in start
  one h = ground arith

  two : 0x80 ≤ c → c < 0x800 → Decodes ((0xc0 + c / 64) ∷ (0x80 + c % 64) ∷ [])
  unfolding decode_from decode_in start continue
  two h k = ground arith

  three :
      0x800 ≤ c
      → c < 0xd800
      → Decodes ((0xe0 + c / 4096) ∷ (0x80 + c / 64 % 64) ∷ (0x80 + c % 64) ∷ [])
  unfolding decode_from decode_in start continue
  three h k = ground arith

  three' :
      0xe000 ≤ c
      → c < 0x10000
      → Decodes ((0xe0 + c / 4096) ∷ (0x80 + c / 64 % 64) ∷ (0x80 + c % 64) ∷ [])
  unfolding decode_from decode_in start continue
  three' h k = ground arith

  four :
      0x10000 ≤ c
      → c < 0x110000
      → Decodes (
          (0xf0 + c / 262144)
          ∷ (0x80 + c / 4096 % 64)
          ∷ (0x80 + c / 64 % 64)
          ∷ (0x80 + c % 64)
          ∷ [])
  unfolding decode_from decode_in start continue
  four h k = ground arith

  decode_from-encode_char : is_char c ≡ true → Decodes (encode_char c)
  unfolding encode_char
  decode_from-encode_char h = ground (arith, one, two, three, three', four)

decode_from-as_bytes : (s : Text) → all is_char s ≡ true → decode_from idle (as_bytes s) ≡ (s, true)
unfolding as_bytes decode_from
decode_from-as_bytes [] h = refl
decode_from-as_bytes (c ∷ cs) h =
    decode_from-encode_char c (as_bytes cs) (ground (arith, h))
    ∙ rw (decode_from-as_bytes cs (ground (arith, h))) refl

-- Every string is read back from its bytes.
pub from_utf8-as_bytes : (s : Text) → all is_char s ≡ true → from_utf8 (as_bytes s) ≡ some s
unfolding from_utf8
from_utf8-as_bytes s h = rw (decode_from-as_bytes s h) refl
