-- ===== src/Forensic/Tests.antt =====
-- The theorems on forensic.c at concrete inputs.
use sope.Prelude.{
  ◌≡◌, refl, Bool, true, false, ◌||◌, ◌&&◌, List, [], ◌∷◌, ◌++◌, some, Text, length, str_eq, ◌==◌,
  if◌then◌else◌,
}
use sope.Prelude.Strings.{codes}
use sope.Format.{decimal}
use sope.Forensic.{
  ForensicArgs, directory, Outside, processed, joined, process_args, get_file_access, no_args,
}
use sope.Forensic.Options.{Choice, argv_of, args_of, IsPossible, process_args-argv_of}
use sope.Forensic.Access.{letters, get_file_access-letters}
use sope.Forensic.Scan.{
  found, Tm, Files, Process, returns, reg, dir, special, end, entry, Entries, Effect, signal_usr1,
  signal_usr2, scan_files, file_info,
}
use sope.Forensic.Sums.{sum_line, file_line}
use sope.Forensic.Program.{forensic_main}
use sope.Forensic.Handlers.{is_usr1, is_usr2}
use sope.Forensic.Counts.{is_ok, all_ok, effects, all_effects}
use sope.Forensic.Walk.{listing}
use sope.Forensic.Output.{all_fit, one_closed, events_of, scan_files-events}

-- a regular file with the permissions 644
get_file_access-letters_example : get_file_access 33_188 ≡ letters 6 ++ (letters 4 ++ letters 4)
get_file_access-letters_example = get_file_access-letters 33_188

abbrev system : Outside
system = record {
  log_file_name = some (codes "log");
  opens = λ name. true;
  stat = λ name. some directory;
}

-- forensic -r -h md5,sha1 -o out -v dir
abbrev choice : Choice
choice = record {
  recursive = true;
  sums = some (codes "md5,sha1");
  out_file = some (codes "out");
  log = true;
}

choice-IsPossible : IsPossible system choice
choice-IsPossible = record { sum_named = refl; out_opens = refl; log_opens = refl }

process_args-argv_of_example :
    process_args system (codes "forensic") (argv_of choice (codes "dir"))
    ≡ processed (
        args_of system choice true
          (codes "dir")
          (joined (codes "forensic") (argv_of choice (codes "dir"))))
process_args-argv_of_example =
    process_args-argv_of system choice choice-IsPossible (codes "forensic") (codes "dir") directory
      refl refl refl

-- a file, a directory with two files and the names . and .., and a device
abbrev tree : Entries
tree = entry (dir (codes ".") true end) (
    entry (reg (codes "a")) (
      entry
        (dir (codes "d") true (
          entry (reg (codes "b"))
            (entry (dir (codes "..") true end) (entry (reg (codes "c")) end))))
        (entry (special (codes "e")) end)))

tree-listing : listing true (codes "t") tree ≡ codes "t/a" ∷ codes "t/d/b" ∷ codes "t/d/c" ∷ []
unfolding str_eq
tree-listing = refl

abbrev noon : Tm
noon = record { year = 2020; month = 3; day = 31; hour = 12; minute = 0; second = 0 }

-- every file but t/b opens
abbrev files : Files
files = record {
  opens = λ name. length name == 3;
  opens_out = λ name. true;
  stat = λ name. record { size = 7; mode = 33_188; change_time = noon; modify_time = noon };
  file_output = λ name. some (file_line name (codes "ASCII text"));
  sum_output = λ type name. some (sum_line (codes "0cc175b9") name);
}

abbrev to_file : ForensicArgs
to_file = record no_args {
  h = true;
  md5 = true;
  v = true;
  o = true;
  out_file_path = some (codes "out");
}

abbrev names : List Text
names = codes "t/a" ∷ codes "t/none" ∷ codes "t/c" ∷ []

abbrev process : Process
process = record { redirected = false; events = [] }

names-all_fit : all_fit files to_file names ≡ true
unfolding file_info decimal
names-all_fit = refl

scan_files-events_example :
    scan_files files to_file names process
    ≡ returns 0 (record {
      redirected = process.redirected || (to_file.o && one_closed files to_file names);
      events = process.events ++ events_of files to_file names;
    })
scan_files-events_example =
    scan_files-events files to_file (λ e. refl) names names-all_fit process refl

-- The line of a file.
a_line :
    file_info files to_file (codes "t/a")
    ≡ found (codes "t/a,ASCII text,7,rw-r--r--,2020-03-31T12:00:00,2020-03-31T12:00:00,0cc175b9")
unfolding file_info decimal
a_line = refl

-- forensic -r -h md5 -v, with and without -o out, on the tree
abbrev recursive : ForensicArgs
recursive = record to_file {
  r = true;
  o = false;
  is_dir = true;
  path = codes "t";
  command = codes "forensic";
}

abbrev recursive_to_file : ForensicArgs
recursive_to_file = record recursive { o = true }

-- The handlers take the acts of the first process before those of its children, but that two signals
-- are lost.
abbrev sent : List Effect
sent =
    let w =
      forensic_main files recursive_to_file true tree
        (record { redirected = false; events = [] }) in
    effects w.own ++ all_effects w.forked

abbrev without_first : (Effect → Bool) → List Effect → List Effect
without_first test [] = []
without_first test (e ∷ es) = if test e then es else e ∷ without_first test es

abbrev lost : List Effect
lost = signal_usr1 ∷ signal_usr2 ∷ []

abbrev arrived : List Effect
arrived = without_first is_usr1 (without_first is_usr2 sent)

-- A directory that opendir refuses ends its process with a crash, and no other.
closed_directory :
    let es = entry (dir (codes "d") false end) end in
    let w = forensic_main files recursive true es (record { redirected = false; events = [] }) in
    (is_ok w.own ≡ true) × (all_ok w.forked ≡ false)
unfolding forensic_main
closed_directory = (refl, refl)
