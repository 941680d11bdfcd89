-- ===== src/Forensic/Output.antt =====
-- What a process of PROJ1/src/forensic.c writes, signals and logs for its files.
use sope.Prelude.{
  ℕ, ◌+◌, ◌≡◌, inl, inr, refl, ap, ap₂, sym, ◌∙◌, Bool, true, false, not, ◌&&◌, ◌||◌, List, [], ◌∷◌,
  ◌++◌, Text, arith, length, ltb, if◌then◌else◌, Bool-cases,
}
use mathlib.Core.List.{append_assoc, append-nil}
use sope.Forensic.{ForensicArgs, max_char}
use sope.Forensic.Scan.{
  Found, found, null, bad, Files, file_scan, Effect, signal_usr2, wrote, logged, Process, Run,
  returns, faults, emit, newline, file_info, out_path, scan_opened, scanfile, and_then, scan_files,
}

abbrev pub text_of : Found → Text
text_of (found info) = info ++ newline ∷ []
text_of null = []
text_of bad = []

-- room for the line in `fileInfo`
abbrev pub fits : Found → Bool
fits (found info) = ltb (length info + 1) max_char
fits null = false
fits bad = false

module _ (files : Files) (args : ForensicArgs) where
  -- Each file either does not open or has a line with room for it.
  abbrev pub all_fit : List Text → Bool
  all_fit [] = true
  all_fit (name ∷ rest) =
      (not (files.opens name) || fits (file_info files args name)) && all_fit rest

  -- the signal, the line and the record of a file
  abbrev pub own_events : Text → List Effect
  own_events name =
      (if args.o then signal_usr2 ∷ [] else [])
      ++ (if files.opens name
          then wrote args.o (text_of (file_info files args name))
            ∷ (if args.v then logged file_scan name ∷ [] else [])
          else [])

  abbrev pub events_of : List Text → List Effect
  events_of [] = []
  events_of (name ∷ rest) = own_events name ++ events_of rest

  abbrev pub one_closed : List Text → Bool
  one_closed [] = false
  one_closed (name ∷ rest) = not (files.opens name) || one_closed rest

  abbrev pub after : Text → Process → Process
  after name p = record {
    redirected = p.redirected || (args.o && not (files.opens name));
    events = p.events ++ own_events name;
  }

  -- a file that opens, behind the redirection
  scan_opened-lem :
      (name : Text)
      → files.opens name ≡ true
      → fits (file_info files args name) ≡ true
      → (saved : Bool) (p : Process)
      → scan_opened files args name saved p
        ≡ returns 0 (record {
          redirected = saved;
          events =
              p.events
              ++ wrote p.redirected (text_of (file_info files args name))
                ∷ (if args.v then logged file_scan name ∷ [] else []);
        })
  unfolding scan_opened
  scan_opened-lem name opens fit saved p = rw opens (of_info (file_info files args name) fit)
    where
      of_info :
          (info : Found)
          → fits info ≡ true
          → (elim info [
            | null ↦ faults
            | bad ↦ faults
            | found info ↦
                if ltb (length info + 1) max_char
                then (let p' = emit (wrote p.redirected (info ++ newline ∷ [])) p in
                    let p'' = record p' { redirected = saved } in
                    returns 0 (if args.v then emit (logged file_scan name) p'' else p''))
                else faults
          ])
            ≡ returns 0 (record {
              redirected = saved;
              events =
                  p.events
                  ++ wrote p.redirected (text_of info)
                    ∷ (if args.v then logged file_scan name ∷ [] else []);
            })
      of_info null e = cc
      of_info bad e = cc
      of_info (found info) e = rw e (elim (Bool-cases args.v) [
        | inl v ↦ rw v (
            ap (λ es. returns 0 (record { redirected = saved; events = es }))
              (append_assoc p.events (wrote p.redirected (text_of (found info)) ∷ [])
                (logged file_scan name ∷ [])))
        | inr v ↦ rw v refl
      ])

  scan_opened-closed :
      (name : Text)
      → files.opens name ≡ false
      → (saved : Bool) (p : Process) → scan_opened files args name saved p ≡ returns 1 p
  unfolding scan_opened
  scan_opened-closed name closed saved p = rw closed refl

  scanfile-redirected :
      args.o ≡ true
      → files.opens_out (out_path files args) ≡ true
      → (name : Text) (p : Process)
      → scanfile files args name p
        ≡ scan_opened files args name p.redirected
            (record { redirected = true; events = p.events ++ signal_usr2 ∷ [] })
  unfolding scanfile
  scanfile-redirected o out name p = rw (o, out) refl

  scanfile-plain :
      args.o ≡ false
      → (name : Text) (p : Process)
      → scanfile files args name p ≡ scan_opened files args name p.redirected p
  unfolding scanfile
  scanfile-plain o name p = rw o refl

  process_eq :
      {b c : Bool} {es fs : List Effect}
      → b ≡ c
      → es ≡ fs
      → (value : ℕ) (next : Process → Run)
      → and_then (returns value (record { redirected = b; events = es })) next
        ≡ next (record { redirected = c; events = fs })
  process_eq e f value next = ap₂ (λ b es. next (record { redirected = b; events = es })) e f

  -- Where the option -o opens the output file, a scan ends, whether its file opens or not.
  pub scanfile-after :
      (args.o ≡ true → files.opens_out (out_path files args) ≡ true)
      → (name : Text) → (not (files.opens name) || fits (file_info files args name)) ≡ true
      → (p : Process) → (args.o || not p.redirected) ≡ true
      → (next : Process → Run) → and_then (scanfile files args name p) next ≡ next (after name p)
  scanfile-after out name ok p set next = elim (Bool-cases args.o) [
    | inl o ↦
        ap (λ r. and_then r next) (scanfile-redirected o (out o) name p)
        ∙ elim (Bool-cases (files.opens name)) [
          | inl f ↦
              ap (λ r. and_then r next) (scan_opened-lem name f (ground (arith, ok, f)) _ _)
              ∙ process_eq (ground (arith, o, f))
                  (rw (o, f) (append_assoc p.events (signal_usr2 ∷ []) _)) 0 next
          | inr f ↦
              ap (λ r. and_then r next) (scan_opened-closed name f _ _)
              ∙ process_eq (ground (arith, o, f)) (rw (o, f) refl) 1 next
        ]
    | inr o ↦
        let plain : p.redirected ≡ false = ground (arith, set, o) in
        ap (λ r. and_then r next) (scanfile-plain o name p) ∙ elim (Bool-cases (files.opens name)) [
          | inl f ↦
              ap (λ r. and_then r next) (scan_opened-lem name f (ground (arith, ok, f)) _ _)
              ∙ process_eq (ground (arith, o, f)) (rw (o, f, plain) refl) 0 next
          | inr f ↦
              ap (λ r. and_then r next) (scan_opened-closed name f _ _)
              ∙ process_eq (ground (arith, o, f)) (rw (o, f) (sym (append-nil p.events))) 1 next
        ]
  ]

  -- When the file of -o opens, each file either does not open or has room for its line, and the
  -- process has its output where the options want it, the loop over a directory's own files ends
  -- with 0. Each file was signalled in its turn if -o is set, each file that opens has its line
  -- written, to the output file just if -o is set, and is logged just if -v is set; and the output is
  -- still redirected behind the loop just if it was before it or a file did not open under -o.
  pub scan_files-events :
      (args.o ≡ true → files.opens_out (out_path files args) ≡ true)
      → (names : List Text) → all_fit names ≡ true
      → (p : Process) → (args.o || not p.redirected) ≡ true
      → scan_files files args names p
        ≡ returns 0 (record {
          redirected = p.redirected || (args.o && one_closed names);
          events = p.events ++ events_of names;
        })
  unfolding scan_files
  scan_files-events out [] fit p set =
      sym (process_eq (ground arith) (append-nil p.events) 0 (returns 0))
  scan_files-events out (name ∷ rest) fit p set =
      scanfile-after out name (ground (arith, fit)) p set (scan_files files args rest)
      ∙ scan_files-events out rest (ground (arith, fit)) (after name p) (ground (arith, set))
      ∙ process_eq (ground arith) (append_assoc p.events (own_events name) (events_of rest)) 0
          (returns 0)
