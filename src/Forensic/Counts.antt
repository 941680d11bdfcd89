-- ===== src/Forensic/Counts.antt =====
-- What all processes of a recursive run of PROJ1/src/forensic.c do together.
use sope.Prelude.{
  ℕ, zero, suc, ◌+◌, ◌*◌, ◌≡◌, inl, inr, refl, ap, sym, subst, ◌∙◌, Bool, true, false, not, ◌&&◌,
  ◌||◌, List, [], ◌∷◌, ◌++◌, Text, arith, length, if◌then◌else◌, Bool-cases, length-append,
}
use mathlib.Core.List.{append_assoc}
use sope.Forensic.{ForensicArgs}
use sope.Forensic.Scan.{
  Files, Effect, signal_usr1, Process, Run, returns, faults, scanfile, and_then, out_path, Entries,
}
use sope.Forensic.Walk.{listing, directories, count, count-append}
use sope.Forensic.Output.{all_fit, own_events, events_of, after, scanfile-after}
use sope.Forensic.Program.{Walked, behind_scan, started, fork, scan_entries}

abbrev pub effects : Run → List Effect
effects (returns value p) = p.events
effects faults = []

-- returns the value 0
abbrev pub is_ok : Run → Bool
is_ok (returns zero p) = true
is_ok (returns (suc n) p) = false
is_ok faults = false

abbrev pub all_ok : List Run → Bool
all_ok [] = true
all_ok (r ∷ rs) = is_ok r && all_ok rs

abbrev pub all_effects : List Run → List Effect
all_effects [] = []
all_effects (r ∷ rs) = effects r ++ all_effects rs

all_effects-append : (rs qs : List Run) → all_effects (rs ++ qs) ≡ all_effects rs ++ all_effects qs
all_effects-append [] qs = refl
all_effects-append (r ∷ rs) qs =
    ap (λ l. effects r ++ l) (all_effects-append rs qs)
    ∙ sym (append_assoc (effects r) (all_effects rs) (all_effects qs))

all_ok-append : (rs qs : List Run) → all_ok rs ≡ true → all_ok qs ≡ true → all_ok (rs ++ qs) ≡ true
all_ok-append [] qs h g = g
all_ok-append (r ∷ rs) qs h g = ground (arith, h, g, all_ok-append rs qs)

module _ (files : Files) (args : ForensicArgs) where
  abbrev pub fit : List Text → Bool
  fit names = all_fit files args names

  pub fit-append : (xs ys : List Text) → fit (xs ++ ys) ≡ true → (fit xs ≡ true) × (fit ys ≡ true)
  fit-append [] ys h = (refl, h)
  fit-append (x ∷ xs) ys h =
      let (a, b) = fit-append xs ys (ground (arith, h)) in (ground (arith, h, a), b)

  events_of-append :
      (xs ys : List Text)
      → events_of files args (xs ++ ys) ≡ events_of files args xs ++ events_of files args ys
  events_of-append [] ys = refl
  events_of-append (x ∷ xs) ys =
      ap (λ l. own_events files args x ++ l) (events_of-append xs ys)
      ∙ sym (
          append_assoc (own_events files args x) (events_of files args xs)
            (events_of files args ys))

  module _ (out : args.o ≡ true → files.opens_out (out_path files args) ≡ true) where
    abbrev pub IsDirected : Process → Type 0
    IsDirected p = (args.o || not p.redirected) ≡ true

    -- all that the processes do, the events that the first one began with included
    abbrev pub of_all : Walked → List Effect
    of_all w = effects w.own ++ all_effects w.forked

    behind_scan-after :
        (name : Text)
        → fit (name ∷ []) ≡ true
        → (p : Process) → IsDirected p
        → (next : Process → Walked)
        → behind_scan (scanfile files args name p) next ≡ next (after files args name p)
    behind_scan-after name ok p set next =
        from (scanfile files args name p)
          (scanfile-after files args out name (ground (arith, ok)) p set (returns 0))
      where
        from :
            (r : Run)
            → and_then r (returns 0) ≡ returns 0 (after files args name p)
            → behind_scan r next ≡ next (after files args name p)
        from (returns value q) e = ap next (ap (λ r. last r) e)
          where
            last : Run → Process
            last (returns v q) = q
            last faults = p
        from faults e = absurd (cc e)

    module _ (test : Effect → Bool) where
      -- the signal of a directory, if it passes
      abbrev pub one : ℕ
      one = if args.o then (if test signal_usr1 then 1 else 0) else 0

      abbrev pub of_files : List Text → ℕ
      of_files names = count test (events_of files args names)

      distributes : (a b k : ℕ) → suc (a + b) * k ≡ k + a * k + b * k
      distributes a b k = grind arith

      pub record Counts (dirs : ℕ) (names : List Text) (before : ℕ) (w : Walked) : Type 0 where
        pub ok : (is_ok w.own && all_ok w.forked) ≡ true
        pub number : length w.forked ≡ dirs
        pub sum : count test (of_all w) ≡ before + dirs * one + of_files names

      pub of_all-count :
          (w : Walked)
          → count test (of_all w) ≡ count test (effects w.own) + count test (all_effects w.forked)
      of_all-count w = count-append test (effects w.own) (all_effects w.forked)

      forked-count :
          (rs qs : List Run)
          → count test (all_effects (rs ++ qs))
            ≡ count test (all_effects rs) + count test (all_effects qs)
      forked-count rs qs =
          ap (count test) (all_effects-append rs qs)
          ∙ count-append test (all_effects rs) (all_effects qs)

      pub started-count :
          (p : Process) → count test (started files args p).events ≡ count test p.events + one
      started-count p = elim (Bool-cases args.o) [
        | inl o ↦ rw o (omega (arith, count-append test p.events (signal_usr1 ∷ [])))
        | inr o ↦ rw o (omega arith)
      ]

      pub started-IsDirected : (p : Process) → IsDirected p → IsDirected (started files args p)
      started-IsDirected p h = ground (arith, h)

      pub scanned :
          (dirname name : Text) (es : Entries) (p : Process)
          → fit (name ∷ listing args.r dirname es) ≡ true
          → IsDirected p
          → Counts
              (directories args.r es)
              (listing args.r dirname es)
              (count test (after files args name p).events)
              (scan_entries files args dirname es (after files args name p))
          → Counts
              (directories args.r es)
              (name ∷ listing args.r dirname es)
              (count test p.events)
              (behind_scan (scanfile files args name p) (λ q. scan_entries files args dirname es q))
      scanned dirname name es p fits set c =
          subst
            (Counts (directories args.r es) (name ∷ listing args.r dirname es)
              (count test p.events))
            (sym (
              behind_scan-after name (ground (arith, fits)) p set
                (λ q. scan_entries files args dirname es q)))
            (record {
              ok = c.ok;
              number = c.number;
              sum = omega (
                arith,
                c.sum,
                count-append test p.events (own_events files args name),
                count-append test (own_events files args name)
                    (events_of files args (listing args.r dirname es)),
              );
            })

      pub with_child :
          (dirname inside : Text) (sub es : Entries) (p : Process)
          → Counts
              (directories args.r sub)
              (listing args.r inside sub)
              (count test (started files args (fork files args p)).events)
              (scan_entries files args inside sub (started files args (fork files args p)))
          → Counts
              (directories args.r es)
              (listing args.r dirname es)
              (count test p.events)
              (scan_entries files args dirname es p)
          → let child =
              scan_entries files args inside sub (started files args (fork files args p)) in
            let rest = scan_entries files args dirname es p in
            Counts
              (suc (directories args.r sub + directories args.r es))
              (listing args.r inside sub ++ listing args.r dirname es)
              (count test p.events)
              (record rest { forked = child.own ∷ (child.forked ++ rest.forked) })
      with_child dirname inside sub es p c d =
          let child = scan_entries files args inside sub (started files args (fork files args p)) in
          let rest = scan_entries files args dirname es p in
          record {
            ok = ground (arith, c.ok, d.ok, all_ok-append child.forked rest.forked);
            number = omega (arith, c.number, d.number, length-append child.forked rest.forked);
            sum = omega (
              arith,
              c.sum,
              d.sum,
              of_all-count child,
              of_all-count rest,
              of_all-count (record rest { forked = child.own ∷ (child.forked ++ rest.forked) }),
              count-append test (effects child.own) (all_effects (child.forked ++ rest.forked)),
              forked-count child.forked rest.forked,
              started-count (fork files args p),
              distributes (directories args.r sub) (directories args.r es) one,
              ap (count test)
                  (events_of-append (listing args.r inside sub) (listing args.r dirname es)),
              count-append test (events_of files args (listing args.r inside sub))
                  (events_of files args (listing args.r dirname es)),
            );
          }
