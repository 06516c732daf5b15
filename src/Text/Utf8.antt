-- ===== src/Text/Utf8.antt =====
-- `str::from_utf8` and `String::from_utf8_lossy`: one decoder, a byte at a time, that replaces
-- each maximal ill-formed part by U+FFFD and notes that it did.
pub mod RoundTrip
use sms_server.Base.{
  ℕ, zero, suc, ◌+◌, ◌-◌, ◌*◌, ◌/◌, ◌%◌, ◌<◌, ◌≡◌, refl, ap, sym, ◌∙◌, append_assoc, Bool, true,
  false, ◌&&◌, [], ◌∷◌, ◌++◌, Option, none, some, All, arith, leb, ltb, ◌==◌, if◌then◌else◌, Text,
  Bytes,
}

-- Between two bytes: `need` continuation bytes are missing, the next one lies in [lo, hi], and
-- `acc` is the code point read so far.
pub record Decoder : Type 0 where
  pub need : ℕ
  pub lo : ℕ
  pub hi : ℕ
  pub acc : ℕ

abbrev pub idle : Decoder
idle = record { need = 0; lo = 0x80; hi = 0xbf; acc = 0 }

abbrev replacement : ℕ
replacement = 0xfffd

-- What one byte gives: the next state, the characters completed, and whether one replaces an
-- ill-formed part.
pub record Decoded : Type 0 where
  pub next : Decoder
  pub chars : Text
  pub valid : Bool

abbrev lead : ℕ → ℕ → ℕ → ℕ → Decoded
lead n lo hi acc = record {
  next = record { need = n; lo = lo; hi = hi; acc = acc };
  chars = [];
  valid = true;
}

abbrev within : ℕ → ℕ → ℕ → Bool
within lo hi c = leb lo c && leb c hi

-- A byte where a character begins.
start : ℕ → Decoded
start c =
    if ltb c 0x80
    then record { next = idle; chars = c ∷ []; valid = true }
    else if within 0xc2 0xdf c
    then lead 1 0x80 0xbf (c - 0xc0)
    else if c == 0xe0
    then lead 2 0xa0 0xbf 0
    else if c == 0xed
    then lead 2 0x80 0x9f 13
    else if within 0xe1 0xef c
    then lead 2 0x80 0xbf (c - 0xe0)
    else if c == 0xf0
    then lead 3 0x90 0xbf 0
    else if within 0xf1 0xf3 c
    then lead 3 0x80 0xbf (c - 0xf0)
    else if c == 0xf4
    then lead 3 0x80 0x8f 4
    else record { next = idle; chars = replacement ∷ []; valid = false }

-- A byte behind a lead byte; one that does not fit ends the ill-formed part and begins anew.
continue : ℕ → Decoder → ℕ → Decoded
continue m d c =
    let acc' = d.acc * 64 + (c - 0x80) in
    if within d.lo d.hi c
    then (if m == 0 then record { next = idle; chars = acc' ∷ []; valid = true } else record {
      next = record { need = m; lo = 0x80; hi = 0xbf; acc = acc' };
      chars = [];
      valid = true;
    })
    else record (start c) { chars = replacement ∷ (start c).chars; valid = false }

decode_in : ℕ → Decoder → ℕ → Decoded
decode_in zero d c = start c
decode_in (suc m) d c = continue m d c

-- The whole text, and whether it was well formed.
decode_from : Decoder → Bytes → Text × Bool
decode_from d [] = if d.need == 0 then ([], true) else (replacement ∷ [], false)
decode_from d (c ∷ cs) =
    let r = decode_in d.need d c in
    let (text, fine) = decode_from r.next cs in (r.chars ++ text, r.valid && fine)

-- `String::from_utf8_lossy`
unfoldable pub from_utf8_lossy : Bytes → Text
unfolding decode_from decode_in start continue
from_utf8_lossy bytes = (decode_from idle bytes).0

-- `str::from_utf8`
unfoldable pub from_utf8 : Bytes → Option Text
unfolding decode_from decode_in start continue
from_utf8 bytes = let (text, fine) = decode_from idle bytes in if fine then some text else none

abbrev pub IsAscii : Bytes → Type 0
IsAscii = All (λ c. c < 128)

decode_from-IsAscii : (s : Bytes) → IsAscii s → decode_from idle s ≡ (s, true)
unfolding decode_from decode_in start
decode_from-IsAscii [] h = refl
decode_from-IsAscii (c ∷ cs) h = ground (arith, decode_from-IsAscii cs h.1)

pub from_utf8-IsAscii : (s : Bytes) → IsAscii s → from_utf8 s ≡ some s
unfolding from_utf8
from_utf8-IsAscii s h = rw (decode_from-IsAscii s h)

-- `str::as_bytes` of one character
encode_char : ℕ → Bytes
encode_char c =
    if ltb c 0x80
    then c ∷ []
    else if ltb c 0x800
    then (0xc0 + c / 64) ∷ (0x80 + c % 64) ∷ []
    else if ltb c 0x10000
    then (0xe0 + c / 4096) ∷ (0x80 + c / 64 % 64) ∷ (0x80 + c % 64) ∷ []
    else (0xf0 + c / 262144) ∷ (0x80 + c / 4096 % 64) ∷ (0x80 + c / 64 % 64) ∷ (0x80 + c % 64) ∷ []

-- `str::as_bytes`
unfoldable pub as_bytes : Text → Bytes
unfolding encode_char
as_bytes [] = []
as_bytes (c ∷ cs) = encode_char c ++ as_bytes cs

as_bytes-append : (s t : Text) → as_bytes (s ++ t) ≡ as_bytes s ++ as_bytes t
unfolding as_bytes
as_bytes-append [] t = refl
as_bytes-append (c ∷ cs) t =
    ap (◌++◌ (encode_char c)) (as_bytes-append cs t)
    ∙ sym (append_assoc (encode_char c) (as_bytes cs) (as_bytes t))

as_bytes-IsAscii : (s : Text) → IsAscii s → as_bytes s ≡ s
unfolding as_bytes
as_bytes-IsAscii [] h = refl
as_bytes-IsAscii (c ∷ cs) h = ground (arith, as_bytes-IsAscii cs h.1)
