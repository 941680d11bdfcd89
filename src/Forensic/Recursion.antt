-- ===== src/Forensic/Recursion.antt =====
-- What the processes of a recursive run of PROJ1/src/forensic.c do together, by recursion on the tree.
use sope.Prelude.{
  ℕ, suc, ◌+◌, ◌≡◌, inl, inr, refl, ap, sym, ◌∙◌, Bool, true, false, ◌&&◌, List, [], ◌∷◌, ◌++◌,
  Text, arith, if◌then◌else◌, Bool-cases,
}
use sope.Forensic.{ForensicArgs}
use sope.Forensic.Scan.{
  Files, Effect, Process, returns, out_path, reg, dir, special, Entries, end, entry, is_dots, below,
  has_room,
}
use sope.Forensic.Walk.{listing, directories, passable, count}
use sope.Forensic.Output.{after}
use sope.Forensic.Program.{Walked, crashed, started, fork, scan_entries}
use sope.Forensic.Counts.{
  fit, fit-append, IsDirected, Counts, of_all-count, started-IsDirected, scanned, with_child,
}

and_parts :
    (a b c d : Bool) → (a && b && c && d) ≡ true → (a ≡ true) × (b ≡ true) × (c ≡ true) × (d ≡ true)
and_parts a b c d h = ground arith

if_then : {A : Type 0} (b : Bool) (x y : A) → b ≡ true → (if b then x else y) ≡ x
if_then b x y e = rw e refl

if_else : {A : Type 0} (b : Bool) (x y : A) → b ≡ false → (if b then x else y) ≡ y
if_else b x y e = rw e refl

module _ (files : Files) (args : ForensicArgs)
    (out : args.o ≡ true → files.opens_out (out_path files args) ≡ true)
    (test : Effect → Bool) where
  -- of two branches
  choose :
      (b : Bool) (d d' : ℕ) (names names' : List Text) (k : ℕ) (w w' : Walked)
      → (b ≡ true → Counts files args out test d names k w)
      → (b ≡ false → Counts files args out test d' names' k w')
      → Counts files args out test
          (if b then d else d')
          (if b then names else names')
          k
          (if b then w else w')
  choose true d d' names names' k w w' yes_case no_case = yes_case refl
  choose false d d' names names' k w w' yes_case no_case = no_case refl

  pub scan_entries-Counts :
      (dirname : Text) (es : Entries) (p : Process)
      → fit files args (listing args.r dirname es) ≡ true
      → passable args.r dirname es ≡ true
      → IsDirected files args out p
      → Counts files args out test
          (directories args.r es)
          (listing args.r dirname es)
          (count test p.events)
          (scan_entries files args dirname es p)
  unfolding scan_entries
  scan_entries-Counts dirname end p h pass set = record {
    ok = refl;
    number = refl;
    sum =
        omega (arith, of_all-count files args out test (record { own = returns 0 p; forked = [] }));
  }
  scan_entries-Counts dirname (entry (special name) es) p h pass set =
      scan_entries-Counts dirname es p h pass set
  scan_entries-Counts dirname (entry (reg name) es) p h pass set =
      elim (Bool-cases (is_dots name)) [
        | inl e ↦ rw e (scan_entries-Counts dirname es p (rw e at h) (rw e at pass) set)
        | inr e ↦
            let fits : fit files args (below dirname name ∷ listing args.r dirname es) ≡ true =
              rw e at h in
            let goes : (has_room dirname name && passable args.r dirname es) ≡ true =
              rw e at pass in
            let room : has_room dirname name ≡ true = ground arith in
            rw (e, room)
              (scanned files args out test dirname (below dirname name) es p fits set (
                scan_entries-Counts dirname es (after files args (below dirname name) p)
                  (ground (arith, fits)) (ground (arith, goes)) (ground (arith, set))))
      ]
  scan_entries-Counts dirname (entry (dir name opens sub) es) p h pass set =
      let child =
        scan_entries files args (below dirname name) sub (started files args (fork files args p)) in
      let rest = scan_entries files args dirname es p in
      let forked = if has_room dirname name then if opens then child else crashed else crashed in
      let inner = listing args.r (below dirname name) sub in
      let later = listing args.r dirname es in
      let passes =
        has_room dirname name
        && opens
        && passable args.r (below dirname name) sub
        && passable args.r dirname es in
      elim (Bool-cases (is_dots name)) [
        | inl e ↦ rw e (scan_entries-Counts dirname es p (rw e at h) (rw e at pass) set)
        | inr e ↦
            let fits : fit files args (if args.r then inner ++ later else later) ≡ true =
              rw e at h in
            let goes : (if args.r then passes else passable args.r dirname es) ≡ true =
              rw e at pass in
            rw e (
              choose args.r (suc (directories args.r sub + directories args.r es))
                (directories args.r es) (inner ++ later) later (count test p.events)
                (record rest { forked = forked.own ∷ (forked.forked ++ rest.forked) }) rest
                (λ r.
                  let both =
                    fit-append files args inner later (
                      ap (fit files args) (sym (if_then args.r (inner ++ later) later r)) ∙ fits) in
                  let (room, opened, deep, after) =
                    and_parts (has_room dirname name) opens
                      (passable args.r (below dirname name) sub) (passable args.r dirname es)
                      (sym (if_then args.r passes (passable args.r dirname es) r) ∙ goes) in
                  rw (room, opened)
                    (with_child files args out test dirname (below dirname name) sub es p
                      (scan_entries-Counts (below dirname name) sub
                        (started files args (fork files args p)) both.0 deep
                        (started-IsDirected files args out test (fork files args p) set))
                      (scan_entries-Counts dirname es p both.1 after set)))
                (λ r.
                  scan_entries-Counts dirname es p
                    (ap (fit files args) (sym (if_else args.r (inner ++ later) later r)) ∙ fits)
                    (sym (if_else args.r passes (passable args.r dirname es) r) ∙ goes) set))
      ]
