-- ===== src/Forensic/Access.antt =====
-- `getFileAccess` against the three octal digits of a mode.
use sope.Prelude.{
  ℕ, suc, ◌+◌, ◌/◌, ◌%◌, ◌≡◌, refl, ap, ◌∙◌, Bool, true, false, [], ◌∷◌, ◌++◌, Text, arith, length,
  ◌==◌, if◌then◌else◌,
}
use sope.Prelude.Strings.{codes}
use sope.Forensic.{has_bit, put_if, get_file_access}

abbrev choose : Bool → ℕ → ℕ → ℕ
choose b c d = if b then c else d

-- the letters of one octal digit, as chmod reads it: 4 for reading, 2 for writing, 1 for execution
abbrev pub letters : ℕ → Text
letters digit =
    choose (has_bit digit 2) b'r' b'-'
    ∷ choose (has_bit digit 1) b'w' b'-'
    ∷ choose (has_bit digit 0) b'x' b'-'
    ∷ []

-- the letters for three bits
abbrev three : Bool → Bool → Bool → Text
three a b c = choose a b'r' b'-' ∷ choose b b'w' b'-' ∷ choose c b'x' b'-' ∷ []

put_if-suc : (b : Bool) (i c x : ℕ) (t : Text) → put_if b (suc i) c (x ∷ t) ≡ x ∷ put_if b i c t
put_if-suc true i c x t = refl
put_if-suc false i c x t = refl

put_if-three :
    (pre rest : Text) (a b c : Bool)
    → let n = length pre in
      put_if c
        (suc (suc n))
        b'x'
        (put_if b (suc n) b'w' (put_if a n b'r' (pre ++ b'-' ∷ b'-' ∷ b'-' ∷ rest)))
      ≡ pre ++ three a b c ++ rest
put_if-three [] rest true true true = refl
put_if-three [] rest true true false = refl
put_if-three [] rest true false true = refl
put_if-three [] rest true false false = refl
put_if-three [] rest false true true = refl
put_if-three [] rest false true false = refl
put_if-three [] rest false false true = refl
put_if-three [] rest false false false = refl
put_if-three (p ∷ pre) rest a b c =
    let n = length pre in
    let text = pre ++ b'-' ∷ b'-' ∷ b'-' ∷ rest in
    ap (λ t. put_if c (suc (suc (suc n))) b'x' (put_if b (suc (suc n)) b'w' t))
      (put_if-suc a n b'r' p text)
    ∙ ap (put_if c (suc (suc (suc n))) b'x') (put_if-suc b (suc n) b'w' p (put_if a n b'r' text))
    ∙ put_if-suc c (suc (suc n)) b'x' p (put_if b (suc n) b'w' (put_if a n b'r' text))
    ∙ ap (λ t. p ∷ t) (put_if-three pre rest a b c)

-- the digit that three letters stand for
abbrev pub digit_of : Text → ℕ
digit_of (a ∷ b ∷ c ∷ rest) =
    choose (a == b'r') 4 0 + choose (b == b'w') 2 0 + choose (c == b'x') 1 0
digit_of _ = 0

module _ (mode : ℕ) where
  abbrev bit : ℕ → Bool
  bit k = has_bit mode k

  -- one letter for each bit
  get_file_access-three :
      get_file_access mode
      ≡ three (bit 8) (bit 7) (bit 6)
        ++ (three (bit 5) (bit 4) (bit 3) ++ three (bit 2) (bit 1) (bit 0))
  unfolding get_file_access
  get_file_access-three =
      let owner = three (bit 8) (bit 7) (bit 6) in
      let group = three (bit 5) (bit 4) (bit 3) in
      let put_others : Text → Text =
        λ t. put_if (bit 0) 8 b'x' (put_if (bit 1) 7 b'w' (put_if (bit 2) 6 b'r' t)) in
      let put_group : Text → Text =
        λ t. put_if (bit 3) 5 b'x' (put_if (bit 4) 4 b'w' (put_if (bit 5) 3 b'r' t)) in
      ap (λ t. put_others (put_group t)) (put_if-three [] (codes "------") (bit 8) (bit 7) (bit 6))
      ∙ ap put_others (put_if-three owner (codes "---") (bit 5) (bit 4) (bit 3))
      ∙ put_if-three (owner ++ group) [] (bit 2) (bit 1) (bit 0)

  -- a bit of the mode is one of an octal digit
  bit_8 : has_bit mode 8 ≡ has_bit (mode / 64 % 8) 2
  bit_8 = ap (λ d. d == 1) (omega arith)

  bit_7 : has_bit mode 7 ≡ has_bit (mode / 64 % 8) 1
  bit_7 = ap (λ d. d == 1) (omega arith)

  bit_6 : has_bit mode 6 ≡ has_bit (mode / 64 % 8) 0
  bit_6 = ap (λ d. d == 1) (omega arith)

  bit_5 : has_bit mode 5 ≡ has_bit (mode / 8 % 8) 2
  bit_5 = ap (λ d. d == 1) (omega arith)

  bit_4 : has_bit mode 4 ≡ has_bit (mode / 8 % 8) 1
  bit_4 = ap (λ d. d == 1) (omega arith)

  bit_3 : has_bit mode 3 ≡ has_bit (mode / 8 % 8) 0
  bit_3 = ap (λ d. d == 1) (omega arith)

  bit_2 : has_bit mode 2 ≡ has_bit (mode % 8) 2
  bit_2 = ap (λ d. d == 1) (omega arith)

  bit_1 : has_bit mode 1 ≡ has_bit (mode % 8) 1
  bit_1 = ap (λ d. d == 1) (omega arith)

  bit_0 : has_bit mode 0 ≡ has_bit (mode % 8) 0
  bit_0 = ap (λ d. d == 1) (omega arith)

  -- For every mode the text of `getFileAccess` is that of the three octal digits of the permissions,
  -- the owner's first: it has nine letters, and the bits above the permissions do not count.
  pub get_file_access-letters :
      get_file_access mode
      ≡ letters (mode / 64 % 8) ++ (letters (mode / 8 % 8) ++ letters (mode % 8))
  get_file_access-letters =
      get_file_access-three
      ∙ rw (bit_8, bit_7, bit_6, bit_5, bit_4, bit_3, bit_2, bit_1, bit_0) refl

pub digit_of-letters : (digit : ℕ) → digit_of (letters digit) ≡ digit % 8
digit_of-letters digit = ground arith
