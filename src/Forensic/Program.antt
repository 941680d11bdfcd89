-- ===== src/Forensic/Program.antt =====
-- PROJ1/src/forensic.c as a whole: main, scanDir with the processes that it forks, and the handlers of
-- SIGUSR1 and SIGUSR2.
-- A fork that fails, a SIGINT and waitForChildren are left out. A process that is forked begins with the
-- standard output of its parent.
use sope.Prelude.{ℕ, ◌+◌, Bool, List, [], ◌∷◌, ◌++◌, Text, str_eq, if◌then◌else◌}
use sope.Prelude.Strings.{codes}
use sope.Format.{decimal}
use sope.Forensic.{ForensicArgs}
use sope.Forensic.Scan.{
  Files, command, Effect, signal_usr1, signal_usr2, wrote, logged, Process, Run, returns, faults,
  emit, scanfile, reg, dir, special, Entries, end, entry, is_dots, below, has_room,
}

-- what a process does, and those that it forks, each with those that it forks behind it
pub record Walked : Type 0 where
  pub own : Run
  pub forked : List Run

-- undefined behaviour in a process that has not forked
abbrev pub crashed : Walked
crashed = record { own = faults; forked = [] }

-- the rest of a function behind a call of scanfile, whatever value came back
abbrev pub behind_scan : Run → (Process → Walked) → Walked
behind_scan (returns value q) next = next q
behind_scan faults next = crashed

module _ (files : Files) (args : ForensicArgs) where
  -- the start of scanDir
  abbrev pub started : Process → Process
  started p = if args.o then emit signal_usr1 p else p

  -- a process that is forked
  abbrev pub fork : Process → Process
  fork p = record p { events = [] }

  -- The loop of `scanDir` over the entries that are left. A path longer than `newDir` is written past
  -- its end; for a directory that is so in the child.
  unfoldable pub scan_entries : Text → Entries → Process → Walked
  unfolding scanfile str_eq has_room
  scan_entries dirname end p = record { own = returns 0 p; forked = [] }
  scan_entries dirname (entry (reg name) es) p =
      let skipped = scan_entries dirname es p in
      let scanned =
        behind_scan (scanfile files args (below dirname name) p) (λ q. scan_entries dirname es q) in
      if is_dots name then skipped else if has_room dirname name then scanned else crashed
  scan_entries dirname (entry (special name) es) p = scan_entries dirname es p
  scan_entries dirname (entry (dir name opens sub) es) p =
      let rest = scan_entries dirname es p in
      let walked = scan_entries (below dirname name) sub (started (fork p)) in
      let child = if has_room dirname name then if opens then walked else crashed else crashed in
      if is_dots name
      then rest
      else if args.r
      then record rest { forked = child.own ∷ (child.forked ++ rest.forked) }
      else rest

  -- `opens` tells whether opendir gives a stream.
  unfoldable pub scan_directory : Text → (opens : Bool) → Entries → Process → Walked
  unfolding scan_entries
  scan_directory dirname opens es p =
      let walked = scan_entries dirname es (started p) in if opens then walked else crashed

  -- `main` behind processArgs; `opens` and `es` are what opendir and readdir give for the path, if it is a
  -- directory.
  unfoldable pub forensic_main : (opens : Bool) → Entries → Process → Walked
  unfolding scan_directory scanfile
  forensic_main opens es p =
      let p' = if args.v then emit (logged command args.command) p else p in
      if args.is_dir
      then scan_directory args.path opens es p'
      else behind_scan (scanfile files args args.path p')
          (λ q. record { own = returns 0 q; forked = [] })

-- `numDirs` and `numFiles`
pub record Counters : Type 0 where
  pub num_dirs : ℕ
  pub num_files : ℕ

-- The counters, the texts that the handlers have printed, and the acts that they have logged.
pub record Handled : Type 0 where
  pub counters : Counters
  pub reports : List Text
  pub logs : List Text

abbrev pub report : Text → Counters → Text
report what c =
    codes "New "
    ++ what
    ++ codes ": "
    ++ decimal c.num_dirs
    ++ b'/' ∷ decimal c.num_files
    ++ codes " directories/files at this time \n"

abbrev pub add_report : ForensicArgs → (what signal : Text) → Counters → Handled → Handled
add_report args what signal c h = record {
  counters = c;
  reports = h.reports ++ report what c ∷ [];
  logs = if args.v then h.logs ++ signal ∷ [] else h.logs;
}

module _ (args : ForensicArgs) where
  -- sigUsr1Handler and sigUsr2Handler; the other effects are no signals.
  unfoldable pub handle : Effect → Handled → Handled
  handle signal_usr1 h =
      add_report args (codes "directory") (codes "USR1")
        (record h.counters { num_dirs = h.counters.num_dirs + 1 }) h
  handle signal_usr2 h =
      add_report args (codes "file") (codes "USR2")
        (record h.counters { num_files = h.counters.num_files + 1 }) h
  handle (wrote redirected t) h = h
  handle (logged type act) h = h

  unfoldable pub handle_all : List Effect → Handled → Handled
  unfolding handle
  handle_all [] h = h
  handle_all (e ∷ es) h = handle_all es (handle e h)
