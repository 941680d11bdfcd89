-- ===== src/Forensic/Counters.antt =====
-- The signals of a recursive run of PROJ1/src/forensic.c at the handlers of its first process.
use sope.Prelude.{ℕ, Bool, false, [], if◌then◌else◌}
use sope.Forensic.{ForensicArgs}
use sope.Forensic.Scan.{Effect, logged, Process, emit, command}
use sope.Forensic.Counts.{Counts}

-- What one option -v logs for the command.
abbrev pub of_command : (Effect → Bool) → ForensicArgs → ℕ
of_command test args = if args.v then (if test (logged command args.command) then 1 else 0) else 0

-- the process behind the first lines of main
abbrev logged_command : ForensicArgs → Process
logged_command args =
    let p : Process = record { redirected = false; events = [] } in
    if args.v then emit (logged command args.command) p else p
