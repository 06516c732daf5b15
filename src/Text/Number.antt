-- ===== src/Text/Number.antt =====
-- `str::parse` into integers, and the decimal form that `format!` writes.
use sms_server.Base.{
  ℕ, zero, suc, ◌+◌, ◌-◌, ◌*◌, ◌/◌, ◌%◌, ◌<◌, ◌≡◌, Bool, true, false, ◌&&◌, [], ◌∷◌, Option, none,
  some, arith, leb, ltb, ◌==◌, if◌then◌else◌, Text,
}
use sms_server.Base.Int.{ℤ, pos, neg_ℕ}

abbrev is_digit : ℕ → Bool
is_digit c = leb 48 c && leb c 57

-- The digits of a non-empty run, most significant first.
parse_digits : ℕ → Text → Option ℕ
parse_digits acc [] = some acc
parse_digits acc (c ∷ cs) =
    let rest = parse_digits (acc * 10 + (c - 48)) cs in if is_digit c then rest else none

abbrev at_most : ℕ → Option ℕ → Option ℕ
at_most top none = none
at_most top (some n) = if leb n top then some n else none

parse_magnitude : Text → Option ℕ
unfolding parse_digits
parse_magnitude [] = none
parse_magnitude (c ∷ cs) = parse_digits 0 (c ∷ cs)

-- `from_str_radix` of an unsigned type: an optional `+`, then digits; the overflow checks on the
-- way refuse just what exceeds the type's largest value.
parse_unsigned : ℕ → Text → Option ℕ
unfolding parse_magnitude
parse_unsigned top [] = none
parse_unsigned top (c ∷ cs) = at_most top (parse_magnitude (if c == 43 then cs else c ∷ cs))

unfoldable pub parse_u8 : Text → Option ℕ
unfolding parse_unsigned
parse_u8 = parse_unsigned 255

unfoldable pub parse_u32 : Text → Option ℕ
unfolding parse_unsigned
parse_u32 = parse_unsigned 4294967295

abbrev signed : Bool → Option ℕ → Option ℤ
signed negative none = none
signed negative (some n) = some (if negative then neg_ℕ n else pos n)

-- `i32`: an optional sign, then digits
unfoldable pub parse_i32 : Text → Option ℤ
unfolding parse_magnitude
parse_i32 [] = none
parse_i32 (c ∷ cs) =
    if c == 45
    then signed true (at_most 2147483648 (parse_magnitude cs))
    else signed false (at_most 2147483647 (parse_magnitude (if c == 43 then cs else c ∷ cs)))

-- Fuel beyond the number of digits; `n` rounds are more than that.
digits : ℕ → ℕ → Text → Text
digits zero n rest = rest
digits (suc f) n rest =
    let more = digits f (n / 10) ((n % 10 + 48) ∷ rest) in
    if ltb n 10 then (n + 48) ∷ rest else more

-- `{}` of an unsigned integer
unfoldable pub decimal : ℕ → Text
unfolding digits
decimal n = digits (suc n) n []

parse_u8_bound : (s : Text) {n : ℕ} → parse_u8 s ≡ some n → n < 256
unfolding parse_u8
parse_u8_bound [] h = cc
parse_u8_bound (c ∷ cs) h = ground arith
