-- ===== src/Format.antt =====
-- What the conversions of printf that the program uses print for an int or an unsigned.
pub mod Decimal
use sope.Prelude.{
  ℕ, zero, suc, ◌+◌, ◌-◌, ◌/◌, ◌%◌, ◌^◌, [], ◌∷◌, ◌++◌, Text, length, replicate, ltb, if◌then◌else◌,
}

-- The decimal digits of n, at most as many as the fuel says.
unfoldable pub digits_within : ℕ → ℕ → Text
digits_within zero n = []
digits_within (suc fuel) n =
    let rest = digits_within fuel (n / 10) in
    (if ltb n 10 then [] else rest) ++ (b'0' + n % 10) ∷ []

-- A number of 64 bits has at most 20 digits.
unfoldable pub decimal : ℕ → Text
unfolding digits_within
decimal n = digits_within 20 n

abbrev pub pad : ℕ → ℕ → Text → Text
pad byte width text = replicate (width - length text) byte ++ text

-- `%0*d` of an int that is not negative, and `%*u`
abbrev pub zero_padded : ℕ → ℕ → Text
zero_padded width n = pad b'0' width (decimal n)

abbrev pub space_padded : ℕ → ℕ → Text
space_padded width n = pad b' ' width (decimal n)

-- `%0*d` of an int, by its 32 bits; the sign counts for the width.
abbrev pub zero_padded_int : ℕ → ℕ → Text
zero_padded_int width n =
    if ltb n (2 ^ 31) then zero_padded width n else b'-' ∷ zero_padded (width - 1) (2 ^ 32 - n)
