-- ===== src/Life/Closed.antt =====
-- The reads of the server end only when a shutdown has closed its end of the FIFO.
use sope.Prelude.{
  ℕ, ◌-◌, ◌≡◌, refl, Bool, true, false, ◌&&◌, List, [], ◌∷◌, Option, none, some, arith, ltb, ◌==◌,
  Text, Bool-cases, inl, inr, ap,
}
use sope.Types.{
  TlvRequest, OpType, op_create_account, op_balance, op_transfer, op_shutdown, op_max_number,
  op_unknown,
}
use sope.Office.Sound.{Bank}
use sope.Office.Spec.{perform, serve, make_transfer}
use sope.Threads.{
  Main, m_reads, m_tests, m_testing, m_finished, m_waits, m_locks, m_pushes, m_unlocks, m_posts,
  m_tested, m_counts, Office, o_starts, o_waits, o_marks, o_locks, o_pops, o_clears, o_unlocks,
  o_posts, o_manages, System, main_move, office_move, turn, create_bank_offices,
}
use sope.Threads.Invariant.{All}
use sope.State.{Env, Server}
use sope.Life.Running.{is_read_out, is_blocked}

perform-closed :
    (sha256 : Text → Text) (salt : Text) (active : ℕ) (op : OpType) (b : Bank) (r : TlvRequest)
    → b.fifo_open ≡ false
    → (perform sha256 salt active op b r).1.fifo_open ≡ false
unfolding perform make_transfer
perform-closed sha256 salt active op_create_account b r h = ground arith
perform-closed sha256 salt active op_balance b r h = ground arith
perform-closed sha256 salt active op_transfer b r h = ground arith
perform-closed sha256 salt active op_shutdown b r h = ground arith
perform-closed sha256 salt active op_max_number b r h = ground arith
perform-closed sha256 salt active (op_unknown n) b r h = ground arith

-- A FIFO that is closed stays closed.
pub serve-closed :
    (sha256 : Text → Text) (salt : Text) (active : ℕ) (b : Bank) (r : TlvRequest)
    → b.fifo_open ≡ false
    → (serve sha256 salt active b r).1.fifo_open ≡ false
unfolding serve
serve-closed sha256 salt active b r h =
    ground (arith, perform-closed sha256 salt active r.type b r h)

-- The main thread is behind its reads.
abbrev pub is_behind : Main TlvRequest → Bool
is_behind m_reads = false
is_behind (m_waits r) = false
is_behind (m_locks r) = false
is_behind (m_pushes r) = false
is_behind (m_unlocks r) = false
is_behind (m_posts r) = false
is_behind _ = true

pub create_bank_offices-is_behind :
    (junk : TlvRequest) (active : ℕ → Bool) (rs : List TlvRequest)
    → is_behind (create_bank_offices junk active rs).main ≡ false
unfolding create_bank_offices
create_bank_offices-is_behind junk active rs = refl

-- The main thread gets behind its reads only where there is nothing more to read.
pub main_move-is_behind :
    (junk : TlvRequest) (n : ℕ) (s : System TlvRequest) (p : Main TlvRequest)
    → s.main ≡ p
    → is_behind p ≡ false
    → is_read_out p s.incoming ≡ false
    → All (λ s'. is_behind s'.main ≡ false) (main_move junk n p s)
unfolding main_move
main_move-is_behind junk n s m_reads at b h = from s.incoming refl h
  where
    from :
        (l : List TlvRequest)
        → s.incoming ≡ l
        → is_read_out m_reads l ≡ false
        → All
            (λ s'. is_behind s'.main ≡ false)
            (main_move junk n m_reads (record s { incoming = l }))
    from [] e h = absurd (cc h)
    from (r ∷ rs) e h = refl
main_move-is_behind junk n s (m_waits r) at b h = ground arith
main_move-is_behind junk n s (m_locks r) at b h = ground arith
main_move-is_behind junk n s (m_pushes r) at b h = ground arith
main_move-is_behind junk n s (m_unlocks r) at b h = refl
main_move-is_behind junk n s (m_posts r) at b h = refl
main_move-is_behind junk n s m_tests at b h = absurd (cc b)
main_move-is_behind junk n s m_testing at b h = absurd (cc b)
main_move-is_behind junk n s m_finished at b h = absurd (cc b)
main_move-is_behind junk n s (m_tested e) at b h = absurd (cc b)
main_move-is_behind junk n s (m_counts i t) at b h = absurd (cc b)

-- An office leaves the main thread where it is.
pub office_move-main :
    (junk : TlvRequest) (s : System TlvRequest) (i : ℕ) (p : Office TlvRequest)
    → All (λ s'. s'.main ≡ s.main) (office_move junk i p s)
unfolding office_move
office_move-main junk s i o_starts = refl
office_move-main junk s i o_waits = ground arith
office_move-main junk s i o_marks = refl
office_move-main junk s i o_locks = ground arith
office_move-main junk s i o_pops = ground arith
office_move-main junk s i o_clears = refl
office_move-main junk s i (o_unlocks r) = refl
office_move-main junk s i (o_posts r) = refl
office_move-main junk s i (o_manages r) = refl

-- one turn, from what its step keeps
pub turn_main :
    (P : System TlvRequest → Type 0) (junk : TlvRequest) (n : ℕ) (s : System TlvRequest)
    → P s
    → All P (main_move junk n s.main s)
    → (t : ℕ) → (t == 0) ≡ true
    → P (turn junk n t s)
unfolding turn
turn_main P junk n s p all t main = rw main (from (main_move junk n s.main s) all)
  where
    from : (o : Option (System TlvRequest)) → All P o → P (elim o [ none ↦ s | some s' ↦ s' ])
    from none a = p
    from (some s') a = a

pub turn_office :
    (junk : TlvRequest) (n : ℕ) (s : System TlvRequest) (t : ℕ)
    → (t == 0) ≡ false
    → (turn junk n t s).main ≡ s.main
unfolding turn
turn_office junk n s t other = elim (Bool-cases (ltb (t - 1) n)) [
  | inl inside ↦
      rw (other, inside)
        (from (office_move junk (t - 1) (s.offices (t - 1)) s)
          (office_move-main junk s (t - 1) (s.offices (t - 1))))
  | inr outside ↦ rw (other, outside) refl
]
  where
    from :
        (o : Option (System TlvRequest))
        → All (λ s'. s'.main ≡ s.main) o
        → let next : System TlvRequest = elim o [ none ↦ s | some s' ↦ s' ] in next.main ≡ s.main
    from none a = refl
    from (some s') a = a

-- Where a turn is not blocked, the main thread gets behind the reads only with the FIFO closed.
pub turn-is_behind :
    (env : Env) (junk : TlvRequest) (n t : ℕ) (th : System TlvRequest) (s : Server)
    → is_blocked env junk n t th s ≡ false
    → (is_behind th.main ≡ true → s.fifo_open ≡ false)
    → is_behind (turn junk n t th).main ≡ true
    → s.fifo_open ≡ false
turn-is_behind env junk n t th s goes before behind = elim (Bool-cases (is_behind th.main)) [
  | inl b ↦ before b
  | inr b ↦ elim (Bool-cases (t == 0)) [
    | inr other ↦ absurd (cc (ap is_behind (turn_office junk n th t other)))
    | inl main ↦ elim (Bool-cases (is_read_out th.main th.incoming)) [
      | inl out ↦ open_end main out
      | inr more ↦ absurd (
          cc (
            turn_main (λ x. is_behind x.main ≡ false) junk n th b
              (main_move-is_behind junk n th th.main refl b more) t main))
    ]
  ]
]
  where
    open_end : (t == 0) ≡ true → is_read_out th.main th.incoming ≡ true → s.fifo_open ≡ false
    open_end main out = from (t == 0) (is_read_out th.main th.incoming) s.fifo_open main out goes
      where
        from : (a b c : Bool) → a ≡ true → b ≡ true → (a && (b && c)) ≡ false → c ≡ false
        from a b c p q r = ground arith
