-- ===== src/Forensic.antt =====
-- PROJ1/src/forensic.c: the arguments of the program, and what it prints of a file.
-- What the system calls and the environment give is a parameter (Outside); that fopen for writing
-- empties a file is left out. The test of the missing file of -o never holds inside the loop and
-- has no clause.
pub mod Scan
pub mod Options
pub mod Access
pub mod Sums
pub mod Walk
pub mod Output
pub mod Program
pub mod Counts
pub mod Recursion
pub mod Handlers
pub mod Counters
mod Tests
use sope.Prelude.{
  ℕ, zero, suc, ◌+◌, ◌-◌, ◌/◌, ◌%◌, ◌^◌, Bool, true, false, not, ◌&&◌, ◌||◌, List, [], ◌∷◌, ◌++◌,
  map, Option, none, some, Text, length, set, str_eq, ◌==◌, ltb, leb, if◌then◌else◌,
}
use sope.Prelude.Strings.{codes, strstr}

-- MAXCHAR
abbrev pub max_char : ℕ
max_char = 1000

-- `forensicArgs`; a pointer is `none` where it is null.
pub record ForensicArgs : Type 0 where
  pub r : Bool
  pub h : Bool
  pub md5 : Bool
  pub sha1 : Bool
  pub sha256 : Bool
  pub v : Bool
  pub o : Bool
  pub is_dir : Bool
  pub path : Text
  pub log_file_path : Option Text
  pub out_file_path : Option Text
  pub command : Text

-- The three kinds of file that `processArgs` tells apart.
pub data FileKind : Type 0 where
  directory regular other : FileKind

-- What `processArgs` finds outside: LOGFILENAME, which files open for writing, and what `stat` tells.
pub record Outside : Type 0 where
  pub log_file_name : Option Text
  pub opens : Text → Bool
  pub stat : Text → Option FileKind

-- The arguments, the end of the program, or a write past the end of `command`.
pub data Processed (A : Type 0) : Type 0 where
  processed : A → Processed A
  exits : (status : ℕ) → Processed A
  overflow : Processed A

infixl 5 ◌>>=◌
abbrev pub ◌>>=◌ : {A B : Type 0} → Processed A → (A → Processed B) → Processed B
processed a >>= f = f a
exits n >>= f = exits n
overflow >>= f = overflow

-- The static variable `args` after the assignments at the start of `processArgs`.
abbrev pub no_args : ForensicArgs
no_args = record {
  r = false;
  h = false;
  md5 = false;
  sha1 = false;
  sha256 = false;
  v = false;
  o = false;
  is_dir = false;
  path = [];
  log_file_path = none;
  out_file_path = none;
  command = [];
}

-- the hashes that the argument of -h names, added to those set before
abbrev pub with_hashes : Text → ForensicArgs → ForensicArgs
with_hashes list args = record args {
  h = true;
  md5 = args.md5 || strstr list (codes "md5");
  sha1 = args.sha1 || strstr list (codes "sha1");
  sha256 = args.sha256 || strstr list (codes "sha256");
}

abbrev pub last_of : Text → List Text → Text
last_of x [] = x
last_of x (y ∷ ys) = last_of y ys

-- `command`: the arguments with a space between two
abbrev pub joined : Text → List Text → Text
joined x [] = x
joined x (y ∷ ys) = x ++ b' ' ∷ joined y ys

abbrev pub with_command : Text → ForensicArgs → Processed ForensicArgs
with_command command args =
    if ltb (length command) max_char
    then processed (record args { command = command })
    else overflow

abbrev pub with_kind : Text → ForensicArgs → Option FileKind → Processed ForensicArgs
with_kind pathname args none = exits 8
with_kind pathname args (some directory) =
    processed (record args { is_dir = true; path = pathname })
with_kind pathname args (some regular) = processed (record args { path = pathname })
with_kind pathname args (some other) = exits 9

module _ (sys : Outside) where
  -- -v
  abbrev pub with_log : ForensicArgs → Processed ForensicArgs
  with_log args = elim sys.log_file_name [
    | none ↦ exits 5
    | some name ↦
        if sys.opens name
        then processed (record args { v = true; log_file_path = some name })
        else exits 6
  ]

  -- The loop over the arguments up to the last but one, from argv[i] on.
  unfoldable pub process_options : List Text → ForensicArgs → Processed ForensicArgs
  unfolding str_eq
  process_options [] args = processed args
  process_options (last ∷ []) args = processed args
  process_options (arg ∷ next ∷ rest) args =
      let after_r = process_options (next ∷ rest) (record args { r = true }) in
      let hashed = with_hashes next args in
      let after_h = process_options rest hashed in
      let after_o = process_options rest (record args { o = true; out_file_path = some next }) in
      let after_v = with_log args >>= λ logged. process_options (next ∷ rest) logged in
      if str_eq arg (codes "-r")
      then after_r
      else if str_eq arg (codes "-h")
      then if hashed.md5 || hashed.sha1 || hashed.sha256 then after_h else exits 2
      else if str_eq arg (codes "-o")
      then if sys.opens next then after_o else exits 4
      else if str_eq arg (codes "-v")
      then after_v
      else exits 7

  abbrev pub with_path : Text → ForensicArgs → Processed ForensicArgs
  with_path pathname args = with_kind pathname args (sys.stat pathname)

  -- `argv`, at least with the name of the program
  unfoldable pub process_args : Text → List Text → Processed ForensicArgs
  unfolding process_options
  process_args prog [] = exits 1
  process_args prog (arg ∷ rest) = process_options (arg ∷ rest) no_args >>= λ args.
      with_path (last_of arg rest) args >>= λ found. with_command (joined prog (arg ∷ rest)) found

-- `mode & 2^k`
abbrev pub has_bit : ℕ → ℕ → Bool
has_bit mode k = mode / 2 ^ k % 2 == 1

abbrev pub put_if : Bool → ℕ → ℕ → Text → Text
put_if b i c str = if b then set str i c else str

-- S_IRUSR is 2^8, and the others follow down to S_IXOTH, which is 1.
unfoldable pub get_file_access : ℕ → Text
get_file_access mode = put_if (has_bit mode 0) 8 b'x' (
    put_if (has_bit mode 1) 7 b'w' (
      put_if (has_bit mode 2) 6 b'r' (
        put_if (has_bit mode 3) 5 b'x' (
          put_if (has_bit mode 4) 4 b'w' (
            put_if (has_bit mode 5) 3 b'r' (
              put_if (has_bit mode 6) 2 b'x' (
                put_if (has_bit mode 7) 1 b'w'
                  (put_if (has_bit mode 8) 0 b'r' (codes "---------")))))))))
