-- ===== src/Forensic/Scan.antt =====
-- PROJ1/src/forensic.c: getFileType, getCheckSum, timestampToISO, scanfile, the paths of scanDir and addLog.
-- A SIGINT in the middle of a directory and a fork that fails are left out.
use sope.Prelude.{
  ℕ, zero, suc, ◌+◌, ◌-◌, Bool, true, false, List, [], ◌∷◌, ◌++◌, map, Option, none, some, Text,
  length, str_eq, ◌==◌, ltb, if◌then◌else◌, ◌||◌,
}
use sope.Prelude.Strings.{codes}
use sope.Format.{decimal, zero_padded}
use sope.Wire.{take, drop}
use sope.Forensic.{ForensicArgs, max_char, get_file_access}

-- `fileSumType`, `logType`
pub data FileSumType : Type 0 where
  md5 sha1 sha256 : FileSumType

pub data LogType : Type 0 where
  command sig_receive file_scan : LogType

-- a text, a null pointer, or undefined behaviour
pub data Found : Type 0 where
  found : Text → Found
  null bad : Found

abbrev pub newline : ℕ
newline = 10

-- What fgets takes of a text for a buffer with room for n bytes and the terminator.
abbrev pub fgets : ℕ → Text → Text
fgets zero t = []
fgets (suc n) [] = []
fgets (suc n) (c ∷ cs) = let rest = fgets n cs in if c == newline then c ∷ [] else c ∷ rest

-- without a newline at its end
abbrev pub chomp : Text → Text
chomp [] = []
chomp (c ∷ []) = if c == newline then [] else c ∷ []
chomp (c ∷ d ∷ cs) = c ∷ chomp (d ∷ cs)

abbrev pub comma_to_space : ℕ → ℕ
comma_to_space c = if c == b',' then b' ' else c

-- `getFileType`; `output` is what `file` prints, if popen gives a pipe. Where no line is left,
-- `str` has no terminator.
unfoldable pub get_file_type : Text → Option Text → Found
get_file_type filename none = null
get_file_type filename (some output) =
    let line = fgets 999 (drop (length filename + 2) output) in
    if length line == 0 then bad else found (map comma_to_space (chomp line))

-- `getCheckSum`; `output` is what the command of the sum prints.
unfoldable pub get_check_sum : Text → Option Text → Found
get_check_sum filename none = null
get_check_sum filename (some output) =
    let line = fgets 199 output in
    if ltb (length line) (length filename + 3)
    then bad
    else found (take (length line - (length filename + 3)) line)

-- `struct tm`, with the year and the month as they are printed
pub record Tm : Type 0 where
  pub year : ℕ
  pub month : ℕ
  pub day : ℕ
  pub hour : ℕ
  pub minute : ℕ
  pub second : ℕ

unfoldable pub timestamp_to_iso : Tm → Text
timestamp_to_iso t =
    decimal t.year
    ++ b'-' ∷ zero_padded 2 t.month
    ++ b'-' ∷ zero_padded 2 t.day
    ++ b'T' ∷ zero_padded 2 t.hour
    ++ b':' ∷ zero_padded 2 t.minute
    ++ b':' ∷ zero_padded 2 t.second

pub record Stat : Type 0 where
  pub size : ℕ
  pub mode : ℕ
  pub change_time : Tm
  pub modify_time : Tm

-- What scanfile finds outside: which files open, what `stat` tells, and the output of the commands.
pub record Files : Type 0 where
  pub opens : Text → Bool
  pub opens_out : Text → Bool
  pub stat : Text → Stat
  pub file_output : Text → Option Text
  pub sum_output : FileSumType → Text → Option Text

-- What a process does, in order; `wrote` tells whether the standard output was redirected.
pub data Effect : Type 0 where
  signal_usr1 signal_usr2 : Effect
  wrote : (redirected : Bool) → Text → Effect
  logged : LogType → (act : Text) → Effect

pub record Process : Type 0 where
  pub redirected : Bool
  pub events : List Effect

-- The value that a function returns with the process, or undefined behaviour.
pub data Run : Type 0 where
  returns : (value : ℕ) → Process → Run
  faults : Run

abbrev pub emit : Effect → Process → Process
emit e p = record p { events = p.events ++ e ∷ [] }

-- `strcat` of a comma and a text, for a sum that is asked for; null is a crash.
abbrev pub with_sum : Bool → Found → Found → Found
with_sum false sum info = info
with_sum true (found sum) (found info) = found (info ++ b',' ∷ sum)
with_sum true _ info = bad

module _ (files : Files) (args : ForensicArgs) where
  abbrev pub sum_of : FileSumType → Text → Found
  sum_of type filename = get_check_sum filename (files.sum_output type filename)

  -- `fileInfo` before the sums
  abbrev pub info_with : Text → Text → Text
  info_with filename file_type =
      let st = files.stat filename in
      filename
      ++ b',' ∷ file_type
      ++ b',' ∷ decimal st.size
      ++ b',' ∷ get_file_access st.mode
      ++ b',' ∷ timestamp_to_iso st.change_time
      ++ b',' ∷ timestamp_to_iso st.modify_time

  -- sprintf prints a null pointer as (null).
  abbrev pub info_of : Text → Found → Found
  info_of filename bad = bad
  info_of filename null = found (info_with filename (codes "(null)"))
  info_of filename (found file_type) = found (info_with filename file_type)

  unfoldable pub file_info : Text → Found
  unfolding get_file_type get_check_sum timestamp_to_iso get_file_access
  file_info filename = with_sum (if args.h then args.sha256 else false) (sum_of sha256 filename) (
      with_sum (if args.h then args.sha1 else false) (sum_of sha1 filename) (
        with_sum (if args.h then args.md5 else false) (sum_of md5 filename)
          (info_of filename (get_file_type filename (files.file_output filename)))))

  abbrev pub out_path : Text
  out_path = elim args.out_file_path [ none ↦ [] | some p ↦ p ]

  -- `scanfile` behind the redirection of the output. The output is put back only at the end.
  unfoldable pub scan_opened : Text → (saved : Bool) → Process → Run
  unfolding file_info
  scan_opened filename saved p =
      if files.opens filename
      then elim (file_info filename) [
        | null ↦ faults
        | bad ↦ faults
        | found info ↦
            if ltb (length info + 1) max_char
            then (let p' = emit (wrote p.redirected (info ++ newline ∷ [])) p in
                let p'' = record p' { redirected = saved } in
                returns 0 (if args.v then emit (logged file_scan filename) p'' else p''))
            else faults
      ]
      else returns 1 p

  unfoldable pub scanfile : Text → Process → Run
  unfolding scan_opened
  scanfile filename p =
      if args.o
      then (let p' = emit signal_usr2 p in
          if files.opens_out out_path
          then scan_opened filename p.redirected (record p' { redirected = true })
          else returns 1 p')
      else scan_opened filename p.redirected p

-- The entries of a directory, in the order in which readdir gives them. Of a directory below, `opens`
-- tells whether opendir gives a stream for it; without one readdir reads a null pointer.
mutual
  pub data DirEntry : Type 0 where
    reg : (d_name : Text) → DirEntry
    dir : (d_name : Text) → (opens : Bool) → Entries → DirEntry
    special : (d_name : Text) → DirEntry

  pub data Entries : Type 0 where
    end : Entries
    entry : DirEntry → Entries → Entries

abbrev pub is_dots : Text → Bool
is_dots name = str_eq name (codes ".") || str_eq name (codes "..")

-- `"%s/%s"`
abbrev pub below : Text → Text → Text
below dirname name = dirname ++ b'/' ∷ name

-- Whether the path and its terminator stay inside the MAXCHAR bytes of `newDir`.
unfoldable pub has_room : Text → Text → Bool
has_room dirname name = ltb (length (below dirname name)) max_char

-- the next statement, whatever value came back
abbrev pub and_then : Run → (Process → Run) → Run
and_then (returns value q) next = next q
and_then faults next = faults

-- What the loop of scanDir does with its own files, one after the other.
unfoldable pub scan_files : Files → ForensicArgs → List Text → Process → Run
unfolding scanfile
scan_files files args [] p = returns 0 p
scan_files files args (name ∷ rest) p =
    and_then (scanfile files args name p) (λ q. scan_files files args rest q)

abbrev pub log_name : LogType → Text
log_name command = codes "COMMAND"
log_name sig_receive = codes "SIGNAL"
log_name file_scan = codes "ANALYZED"

-- A line of `addLog`: `instant` is the time that "%f" prints, and `pid` the process.
unfoldable pub log_line : (instant : Text) (pid : ℕ) → LogType → (act : Text) → Text
log_line instant pid type act =
    instant
    ++ codes " - "
    ++ zero_padded 8 pid
    ++ codes " - "
    ++ log_name type
    ++ b' ' ∷ act
    ++ newline ∷ []
