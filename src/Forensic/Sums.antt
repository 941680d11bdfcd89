-- ===== src/Forensic/Sums.antt =====
-- getCheckSum and getFileType of PROJ1/src/forensic.c on the lines that the commands document.
use sope.Prelude.{
  ℕ, zero, suc, ◌+◌, ◌-◌, ◌≤◌, ◌<◌, ◌≡◌, refl, ap, ◌∙◌, Bool, true, false, not, ◌&&◌, [], ◌∷◌, ◌++◌,
  some, Text, arith, length, ltb, ◌==◌, length-append,
}
use mathlib.Core.List.{append_assoc}
use sope.Wire.{take}
use sope.Wire.Words.{take-length}
use sope.Forensic.Scan.{found, fgets, newline, get_check_sum}

-- without a given character
abbrev pub lacks : ℕ → Text → Bool
lacks d [] = true
lacks d (c ∷ cs) = not (c == d) && lacks d cs

fgets-line :
    (n : ℕ) (line rest : Text)
    → lacks newline line ≡ true
    → length line < n
    → fgets n (line ++ newline ∷ rest) ≡ line ++ newline ∷ []
fgets-line zero line rest h l = ground (arith, l)
fgets-line (suc n) [] rest h l = refl
fgets-line (suc n) (c ∷ cs) rest h l = ground (arith, h, l, fgets-line n cs rest)

lacks-append :
    (d : ℕ) (xs ys : Text) → lacks d xs ≡ true → lacks d ys ≡ true → lacks d (xs ++ ys) ≡ true
lacks-append d [] ys h g = g
lacks-append d (x ∷ xs) ys h g = ground (arith, h, g, lacks-append d xs ys)

-- what md5sum, sha1sum and sha256sum print of a file whose name they need not escape
abbrev pub sum_line : (sum filename : Text) → Text
sum_line sum filename = (sum ++ b' ' ∷ b' ' ∷ filename) ++ newline ∷ []

-- what file prints
abbrev pub file_line : (filename type : Text) → Text
file_line filename type = (filename ++ b':' ∷ b' ' ∷ []) ++ (type ++ newline ∷ [])

module _ (filename : Text) where
  -- Of a line with a sum, two spaces and the file's name, which has no end of line inside and fits
  -- in 199 bytes, getCheckSum gives the sum.
  get_check_sum-sum_line :
      (sum : Text)
      → lacks newline sum ≡ true
      → lacks newline filename ≡ true
      → length sum + length filename + 3 ≤ 199
      → get_check_sum filename (some (sum_line sum filename)) ≡ found sum
  unfolding get_check_sum
  get_check_sum-sum_line sum h g l =
      rw
        (fgets-line 199 line []
          (lacks-append newline sum (b' ' ∷ b' ' ∷ filename) h (ground (arith, g)))
          (omega (arith, l, size)))
        (rw (ltb-no, cut)
          (ap found (ap (take (length sum)) (append_assoc sum _ _) ∙ take-length sum _)))
    where
      line : Text
      line = sum ++ b' ' ∷ b' ' ∷ filename

      size : length line ≡ length sum + 2 + length filename
      size = omega (arith, length-append sum (b' ' ∷ b' ' ∷ filename))

      ltb-no : ltb (length (line ++ newline ∷ [])) (length filename + 3) ≡ false
      ltb-no = ground (arith, size, length-append line (newline ∷ []))

      cut : length (line ++ newline ∷ []) - (length filename + 3) ≡ length sum
      cut = omega (arith, size, length-append line (newline ∷ []))
