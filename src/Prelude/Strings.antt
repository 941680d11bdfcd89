-- ===== src/Prelude/Strings.antt =====
-- String literals as lists of bytes; the literals are ASCII.
use Prim.Native.Char.{code}
use Prim.Native.String.{String}
use Prim.Native.Nat.{ℕ}
use mathlib.Core.Bool.{Bool, true, false, ◌&&◌}
use mathlib.Core.List.{List, [], ◌∷◌}
use sope.Prelude.Tests.{◌==◌, if◌then◌else◌}

abbrev pub codes : String → List ℕ
codes String.[] = []
codes (String.◌∷◌ c s) = code c ∷ codes s

-- `strncmp(s, prefix, strlen(prefix)) == 0`
abbrev pub starts_with : List ℕ → List ℕ → Bool
starts_with s [] = true
starts_with [] (y ∷ ys) = false
starts_with (x ∷ xs) (y ∷ ys) = (x == y) && starts_with xs ys

-- `strstr(s, needle) != NULL`
abbrev pub strstr : List ℕ → List ℕ → Bool
strstr [] needle = starts_with [] needle
strstr (x ∷ xs) needle =
    let rest = strstr xs needle in if starts_with (x ∷ xs) needle then true else rest
