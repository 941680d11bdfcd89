-- ===== src/Libc.antt =====
-- The functions of the C library that the programs read their arguments with.
use sope.Prelude.{
  ℕ, ◌+◌, ◌-◌, ◌*◌, ◌%◌, ◌^◌, Bool, true, [], ◌∷◌, Option, none, some, Text, ◌==◌, ltb, leb, ◌&&◌,
  if◌then◌else◌,
}
use sope.Types.{u32, u32_mod}

abbrev pub is_digit : ℕ → Bool
is_digit c = leb b'0' c && leb c b'9'

-- the number that the digits at the start of a text make, after `acc`
unfoldable pub digits_value : ℕ → Text → ℕ
digits_value acc [] = acc
digits_value acc (c ∷ cs) =
    let rest = digits_value (acc * 10 + (c - b'0')) cs in if is_digit c then rest else acc

-- the bytes that isspace accepts: 9 to 13, and the space
abbrev pub is_space : ℕ → Bool
is_space c = if c == b' ' then true else leb 9 c && leb c 13

abbrev pub skip_space : Text → Text
skip_space [] = []
skip_space (c ∷ cs) = let rest = skip_space cs in if is_space c then rest else c ∷ cs

-- strtol stops at the ends of long; the int keeps the low 32 bits.
abbrev long_max : ℕ
long_max = 2 ^ 63 - 1

abbrev pub signed_value : Text → ℕ
signed_value [] = 0
signed_value (c ∷ cs) =
    if c == b'-'
    then (let n = digits_value 0 cs in if ltb long_max n then 0 else u32 (u32_mod - n % u32_mod))
    else let n = digits_value 0 (if c == b'+' then cs else c ∷ cs) in
      if ltb long_max n then u32 long_max else u32 n

-- atoi; the result is the 32 bits of the int.
unfoldable pub atoi : Text → ℕ
unfolding digits_value
atoi t = signed_value (skip_space t)

-- the text up to the first space, and what stands behind that space
abbrev pub until_space : Text → Text × Text
until_space [] = ([], [])
until_space (c ∷ cs) =
    let (token, rest) = until_space cs in if c == b' ' then ([], cs) else (c ∷ token, rest)

-- One call of strtok with the delimiter " ": the token, and the text that the next call reads.
unfoldable pub strtok : Text → Option (Text × Text)
strtok [] = none
strtok (c ∷ cs) = let rest = strtok cs in if c == b' ' then rest else some (until_space (c ∷ cs))
