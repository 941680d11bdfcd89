-- ===== src/Forensic/Handlers.antt =====
-- The handlers of SIGUSR1 and SIGUSR2 in PROJ1/src/forensic.c.
use sope.Prelude.{
  ◌+◌, ◌≡◌, refl, Bool, true, false, List, [], ◌∷◌, ◌++◌, Text, arith, length, if◌then◌else◌,
  length-append,
}
use sope.Prelude.Strings.{codes}
use sope.Forensic.{ForensicArgs}
use sope.Forensic.Scan.{Effect, signal_usr1, signal_usr2, wrote, logged}
use sope.Forensic.Walk.{count}
use sope.Forensic.Program.{Handled, handle_all, handle, report}

abbrev pub is_usr1 : Effect → Bool
is_usr1 signal_usr1 = true
is_usr1 signal_usr2 = false
is_usr1 (wrote redirected t) = false
is_usr1 (logged type act) = false

abbrev pub is_usr2 : Effect → Bool
is_usr2 signal_usr1 = false
is_usr2 signal_usr2 = true
is_usr2 (wrote redirected t) = false
is_usr2 (logged type act) = false

abbrev pub no_signals : Handled
no_signals = record { counters = record { num_dirs = 0; num_files = 0 }; reports = []; logs = [] }

length-add_one : (ts : List Text) (t : Text) → length (ts ++ t ∷ []) ≡ length ts + 1
length-add_one ts t = length-append ts (t ∷ [])

length-add_if :
    (v : Bool) (ts : List Text) (t : Text)
    → length (if v then ts ++ t ∷ [] else ts) ≡ length ts + (if v then 1 else 0)
length-add_if v ts t = ground (arith, length-add_one ts t)

handle-counters :
    (args : ForensicArgs) (e : Effect) (h : Handled)
    → ((handle args e h).counters.num_dirs ≡ h.counters.num_dirs + (if is_usr1 e then 1 else 0))
      × ((handle args e h).counters.num_files ≡ h.counters.num_files + (if is_usr2 e then 1 else 0))
      × (length (handle args e h).reports
          ≡ length h.reports + (if is_usr1 e then 1 else 0) + (if is_usr2 e then 1 else 0))
      × (length (handle args e h).logs
          ≡ length h.logs
            + (if args.v then (if is_usr1 e then 1 else 0) + (if is_usr2 e then 1 else 0) else 0))
unfolding handle
handle-counters args signal_usr1 h = (
  refl,
  omega arith,
  omega (
    arith,
    length-add_one h.reports
        (report (codes "directory") (record h.counters { num_dirs = h.counters.num_dirs + 1 })),
  ),
  length-add_if args.v h.logs (codes "USR1"),
)
handle-counters args signal_usr2 h = (
  omega arith,
  refl,
  omega (
    arith,
    length-add_one h.reports
        (report (codes "file") (record h.counters { num_files = h.counters.num_files + 1 })),
  ),
  length-add_if args.v h.logs (codes "USR2"),
)
handle-counters args (wrote redirected t) h = (omega arith, omega arith, omega arith, ground arith)
handle-counters args (logged type act) h = (omega arith, omega arith, omega arith, ground arith)

-- the counters and the texts behind a list of effects
pub handle_all-counters :
    (args : ForensicArgs) (es : List Effect) (h : Handled)
    → ((handle_all args es h).counters.num_dirs ≡ h.counters.num_dirs + count is_usr1 es)
      × ((handle_all args es h).counters.num_files ≡ h.counters.num_files + count is_usr2 es)
      × (length (handle_all args es h).reports
          ≡ length h.reports + count is_usr1 es + count is_usr2 es)
      × (length (handle_all args es h).logs
          ≡ length h.logs + (if args.v then count is_usr1 es + count is_usr2 es else 0))
unfolding handle_all
handle_all-counters args [] h = (omega arith, omega arith, omega arith, ground arith)
handle_all-counters args (e ∷ es) h =
    let (a, b, c, d) = handle_all-counters args es (handle args e h) in
    let (a', b', c', d') = handle-counters args e h in
    (omega (arith, a, a'), omega (arith, b, b'), omega (arith, c, c'), ground (arith, d, d'))
