-- ===== src/Text.antt =====
-- The operations of Rust's `str` that the program uses, over code points.
pub mod Utf8
pub mod Number
pub mod Laws
use Prim.Native.Char.{code}
use Prim.Native.String.{String}
use sms_server.Base.{
  ℕ, zero, suc, ◌+◌, Bool, true, false, ◌&&◌, ◌||◌, List, [], ◌∷◌, ◌++◌, Option, none, some, leb,
  ◌==◌, if◌then◌else◌, Text,
}

-- The code points of a literal.
abbrev pub codes : String → Text
codes String.[] = []
codes (String.◌∷◌ c s) = code c ∷ codes s

-- The text of an error or of a response, whose letters no proof looks at.
unfoldable pub message : String → Text
message = codes

-- `u8::is_ascii_whitespace`: without the vertical tab.
unfoldable pub is_ascii_whitespace : ℕ → Bool
is_ascii_whitespace c = c == 32 || c == 9 || c == 10 || c == 12 || c == 13

-- `char::is_whitespace`: the White_Space property.
unfoldable pub is_whitespace : ℕ → Bool
is_whitespace c =
    c == 32
    || (leb 9 c && leb c 13)
    || c == 0x85
    || c == 0xa0
    || c == 0x1680
    || (leb 0x2000 c && leb c 0x200a)
    || c == 0x2028
    || c == 0x2029
    || c == 0x202f
    || c == 0x205f
    || c == 0x3000

-- `str::trim_start`
unfoldable pub trim_start : Text → Text
trim_start [] = []
trim_start (c ∷ cs) = if is_whitespace c then trim_start cs else c ∷ cs

abbrev pub cons_unless_blank : ℕ → Text → Text
cons_unless_blank c [] = if is_whitespace c then [] else c ∷ []
cons_unless_blank c (d ∷ ds) = c ∷ d ∷ ds

-- `str::trim_end`
unfoldable pub trim_end : Text → Text
trim_end [] = []
trim_end (c ∷ cs) = cons_unless_blank c (trim_end cs)

-- `str::trim`
unfoldable pub trim : Text → Text
unfolding trim_start trim_end
trim s = trim_end (trim_start s)

-- `==` on strings
unfoldable pub equal : Text → Text → Bool
equal [] [] = true
equal (x ∷ xs) (y ∷ ys) = x == y && equal xs ys
equal _ _ = false

-- `str::strip_prefix`
unfoldable pub strip_prefix : Text → Text → Option Text
strip_prefix [] s = some s
strip_prefix (p ∷ ps) [] = none
strip_prefix (p ∷ ps) (c ∷ cs) = if p == c then strip_prefix ps cs else none

abbrev pub is_some {ℓ} : {A : Type ℓ} → Option A → Bool
is_some none = false
is_some (some a) = true

-- `str::starts_with`
unfoldable pub starts_with : Text → Text → Bool
unfolding strip_prefix
starts_with p s = is_some (strip_prefix p s)

abbrev cons_some : ℕ → Option Text → Option Text
cons_some c none = none
cons_some c (some s) = some (c ∷ s)

-- `str::strip_suffix`
unfoldable pub strip_suffix : Text → Text → Option Text
unfolding equal
strip_suffix p [] = if equal p [] then some [] else none
strip_suffix p (c ∷ cs) = if equal p (c ∷ cs) then some [] else cons_some c (strip_suffix p cs)

-- `str::ends_with`
unfoldable pub ends_with : Text → Text → Bool
unfolding strip_suffix
ends_with p s = is_some (strip_suffix p s)

abbrev cons_first : ℕ → List Text → List Text
cons_first c [] = (c ∷ []) ∷ []
cons_first c (s ∷ ss) = (c ∷ s) ∷ ss

-- `str::split` at a character: always at least one piece
unfoldable pub split : ℕ → Text → List Text
split sep [] = [] ∷ []
split sep (c ∷ cs) = if c == sep then [] ∷ split sep cs else cons_first c (split sep cs)

abbrev strip_cr : Text → Text
strip_cr [] = []
strip_cr (c ∷ []) = if c == 13 then [] else c ∷ []
strip_cr (c ∷ d ∷ cs) = c ∷ strip_cr (d ∷ cs)

abbrev end_lines : List Text → List Text
end_lines [] = []
end_lines ([] ∷ []) = []
end_lines ((c ∷ cs) ∷ []) = (c ∷ cs) ∷ []
end_lines (s ∷ t ∷ ts) = strip_cr s ∷ end_lines (t ∷ ts)

-- `str::lines`: each piece that a newline ends, without a carriage return at its end, and what
-- follows the last newline, as it stands, unless it is empty.
unfoldable pub lines : Text → List Text
unfolding split
lines s = end_lines (split 10 s)

-- `str::find` of a character
unfoldable pub find : ℕ → Text → Option ℕ
find q [] = none
find q (c ∷ cs) =
    if c == q then some 0 else (elim (find q cs) [ none ↦ none | some i ↦ some (suc i) ])

-- `str::rfind` of a character
unfoldable pub rfind : ℕ → Text → Option ℕ
rfind q [] = none
rfind q (c ∷ cs) = elim (rfind q cs) [
  | none ↦ if c == q then some 0 else none
  | some i ↦ some (suc i)
]

abbrev cons_fst : ℕ → Option (Text × Text) → Option (Text × Text)
cons_fst c none = none
cons_fst c (some (s, t)) = some (c ∷ s, t)

-- `str::split_once`
unfoldable pub split_once : Text → Text → Option (Text × Text)
unfolding strip_prefix
split_once sep [] = elim (strip_prefix sep []) [ none ↦ none | some t ↦ some ([], t) ]
split_once sep (c ∷ cs) =
    let later = cons_fst c (split_once sep cs) in
    elim (strip_prefix sep (c ∷ cs)) [ none ↦ later | some t ↦ some ([], t) ]

-- `str::contains`
unfoldable pub contains : Text → Text → Bool
unfolding starts_with
contains p [] = starts_with p []
contains p (c ∷ cs) = starts_with p (c ∷ cs) || contains p cs
