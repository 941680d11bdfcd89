-- ===== src/Forensic/Walk.antt =====
-- A listing of a directory tree, against which the processes of scanDir are compared.
use sope.Prelude.{
  ℕ, suc, ◌+◌, ◌≡◌, Bool, true, ◌&&◌, List, [], ◌∷◌, ◌++◌, Text, arith, if◌then◌else◌,
}
use sope.Forensic.Scan.{reg, dir, special, Entries, end, entry, is_dots, below, has_room}

-- The regular files of a directory, and with r those of the directories below, from one recursive walk.
abbrev pub listing : (r : Bool) → Text → Entries → List Text
listing r dirname end = []
listing r dirname (entry (reg name) es) =
    let rest = listing r dirname es in if is_dots name then rest else below dirname name ∷ rest
listing r dirname (entry (dir name opens sub) es) =
    let rest = listing r dirname es in
    let inner = listing r (below dirname name) sub in
    if is_dots name then rest else if r then inner ++ rest else rest
listing r dirname (entry (special name) es) = listing r dirname es

-- the directories under a directory, that are walked under r
abbrev pub directories : (r : Bool) → Entries → ℕ
directories r end = 0
directories r (entry (reg name) es) = directories r es
directories r (entry (dir name opens sub) es) =
    let rest = directories r es in
    let inner = directories r sub in
    if is_dots name then rest else if r then suc (inner + rest) else rest
directories r (entry (special name) es) = directories r es

-- The paths of all that is walked have room in `newDir`, and each directory opens.
abbrev pub passable : (r : Bool) → Text → Entries → Bool
passable r dirname end = true
passable r dirname (entry (reg name) es) =
    let rest = passable r dirname es in if is_dots name then rest else has_room dirname name && rest
passable r dirname (entry (dir name opens sub) es) =
    let rest = passable r dirname es in
    let inner = passable r (below dirname name) sub in
    if is_dots name
    then rest
    else if r
    then has_room dirname name && opens && inner && rest
    else rest
passable r dirname (entry (special name) es) = passable r dirname es

-- how many items satisfy a test
abbrev pub count : {A : Type 0} → (A → Bool) → List A → ℕ
count p [] = 0
count p (x ∷ xs) = (if p x then 1 else 0) + count p xs

pub count-append :
    {A : Type 0} (p : A → Bool) (xs ys : List A) → count p (xs ++ ys) ≡ count p xs + count p ys
count-append p [] ys = omega arith
count-append p (x ∷ xs) ys = omega (arith, count-append p xs ys)
