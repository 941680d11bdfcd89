-- ===== src/Life/Keeps.antt =====
-- The threads at work on the accounts: every `manageRequest` returns, and the accounts stay well formed.
use sope.Prelude.{
  ℕ, ◌-◌, ◌<◌, ◌≡◌, ◌⊎◌, inl, inr, refl, sym, ap, subst, ◌∙◌, true, false, List, [], ◌∷◌, arith,
  ltb, ◌==◌, Bool-cases,
}
use sope.Types.{TlvRequest}
use sope.State.{Env, Server, Outcome, done, exited, fault, deadlock}
use sope.Accounts.Hash.{Sha256}
use sope.Office.Sound.{Bank, bank, IsSound}
use sope.Accounts.Salt.{new_salt}
use sope.Office.Handlers.{num_active}
use sope.Office.Keeps.{serve-Keeps}
use sope.Office.Refine.{manage_request-Refines}
use sope.Threads.{
  Office, o_starts, o_waits, o_marks, o_locks, o_pops, o_clears, o_unlocks, o_posts, o_manages,
  System, turn, run,
}
use sope.Threads.Invariant.{Inv}
use sope.Threads.MainKeeps.{main_move-Inv}
use sope.Threads.OfficeKeeps.{office_move-Inv}
use sope.Threads.Safety.{run-keeps}
use sope.Life.Running.{Live, office_serves, serves, is_blocked, flags, live_turn, live_run}
use sope.Life.Closed.{is_behind, serve-closed, turn-is_behind}
use sope.Life.Servable.{AllServable, is_servable-IsRequest, manages-servable}

-- The program goes on, with no mutex held and the accounts well formed.
abbrev pub GoesOn : Outcome (Unit {0}) → Type 0
GoesOn (done _ s) = IsSound (bank s) × (s.account_mutexes ≡ [])
GoesOn _ = ⊥

-- Once the main thread is behind its reads, the server's end of the FIFO is closed.
abbrev pub Closes : System TlvRequest → Outcome (Unit {0}) → Type 0
Closes th (done _ s) = is_behind th.main ≡ true → s.fifo_open ≡ false
Closes th _ = Unit {0}

-- What a step does from the state s: the program goes on, and a FIFO that is closed stays closed.
abbrev Follows : Server → Outcome (Unit {0}) → Type 0
Follows s (done _ s') =
    IsSound (bank s') × (s'.account_mutexes ≡ []) × (s.fifo_open ≡ false → s'.fifo_open ≡ false)
Follows s _ = ⊥

Follows-Closes :
    (th : System TlvRequest) (s : Server) (o : Outcome (Unit {0}))
    → (is_behind th.main ≡ true → s.fifo_open ≡ false)
    → Follows s o
    → GoesOn o × Closes th o
Follows-Closes th s (done _ s') h (sound, free, stays) = ((sound, free), λ b. stays (h b))
Follows-Closes th s (exited k) h f = absurd f
Follows-Closes th s fault h f = absurd f
Follows-Closes th s deadlock h f = absurd f

module _ (env : Env) (junk : TlvRequest) (n : ℕ) where
  abbrev state_of : System TlvRequest → Outcome (Unit {0}) → Live
  state_of threads server = record { threads = threads; server = server }

  -- A turn of Threads, or none.
  live_turn-threads :
      (t : ℕ) (th : System TlvRequest) (o : Outcome (Unit {0}))
      → ((live_turn env junk n t (state_of th o)).threads ≡ th)
        ⊎ ((live_turn env junk n t (state_of th o)).threads ≡ turn junk n t th)
  unfolding live_turn
  live_turn-threads t th (done a s) = elim (Bool-cases (is_blocked env junk n t th s)) [
    | inl waits ↦ inl (rw waits refl)
    | inr goes ↦ inr (rw goes refl)
  ]
  live_turn-threads t th (exited k) = inl refl
  live_turn-threads t th fault = inl refl
  live_turn-threads t th deadlock = inl refl

  -- The threads run as in Threads, under the schedule without the turns that wait.
  pub live_run-threads :
      (ts : List ℕ) (l : Live)
      → (us : List ℕ) × ((live_run env junk n ts l).threads ≡ run junk n us l.threads)
  unfolding live_run run
  live_run-threads [] l = ([], refl)
  live_run-threads (t ∷ ts) l =
      let (us, e) = live_run-threads ts (live_turn env junk n t l) in
      elim (live_turn-threads t l.threads l.server) [
        | inl same ↦ (us, e ∙ ap (run junk n us) same)
        | inr moved ↦ (t ∷ us, e ∙ ap (run junk n us) moved)
      ]

  module _ (h : Sha256 env) (writes : (k : ℕ) → env.fifo_writes k ≡ true) (rs : List TlvRequest)
      (all : AllServable rs) where
    abbrev pub Good : Live → Type 0
    Good l = Inv junk n rs l.threads × GoesOn l.server × Closes l.threads l.server

    turn-Inv : (t : ℕ) (s : System TlvRequest) → Inv junk n rs s → Inv junk n rs (turn junk n t s)
    unfolding run
    turn-Inv t s v =
        run-keeps junk n (Inv junk n rs) (λ s v. main_move-Inv junk n rs s v s.main refl)
          (λ s i inside v. office_move-Inv junk n rs s v i inside (s.offices i) refl) (t ∷ []) s v

    office_serves-Follows :
        (p : Office TlvRequest) (t i : ℕ) (th : System TlvRequest) (s : Server)
        → Inv junk n rs th
        → i < n
        → th.offices i ≡ p
        → GoesOn (done tt s)
        → Follows s (office_serves env junk n p t th s)
    office_serves-Follows (o_manages r) t i th s v inside at (sound, free) =
        let (is_request, allowed, path, named) =
          is_servable-IsRequest r (manages-servable junk n rs th v all i r inside at) in
        let before = record s { active_offices = flags n th.active_offices } in
        let (s', log, e, same, sent, m, active) =
          manage_request-Refines env h r t before path sound free is_request named writes in
        let salt = new_salt env s.rand_calls in
        let busy = num_active before.active_offices in
        subst (Follows s) (sym e) (
          rw same (serve-Keeps h.sha256 salt busy (bank s) r sound is_request allowed).0,
          m,
          λ closed.
              ap (λ (b : Bank). b.fifo_open) same
              ∙ serve-closed h.sha256 salt busy (bank s) r closed,
        )
    office_serves-Follows o_starts t i th s v inside at (g, m) = (g, m, λ c. c)
    office_serves-Follows o_waits t i th s v inside at (g, m) = (g, m, λ c. c)
    office_serves-Follows o_marks t i th s v inside at (g, m) = (g, m, λ c. c)
    office_serves-Follows o_locks t i th s v inside at (g, m) = (g, m, λ c. c)
    office_serves-Follows o_pops t i th s v inside at (g, m) = (g, m, λ c. c)
    office_serves-Follows o_clears t i th s v inside at (g, m) = (g, m, λ c. c)
    office_serves-Follows (o_unlocks r) t i th s v inside at (g, m) = (g, m, λ c. c)
    office_serves-Follows (o_posts r) t i th s v inside at (g, m) = (g, m, λ c. c)

    serves-Follows :
        (t : ℕ) (th : System TlvRequest) (s : Server)
        → Inv junk n rs th
        → GoesOn (done tt s)
        → Follows s (serves env junk n t th s)
    serves-Follows t th s v g = elim (Bool-cases (t == 0)) [
      | inl main ↦ rw main (g.0, g.1, λ c. c)
      | inr other ↦ elim (Bool-cases (ltb (t - 1) n)) [
        | inl inside ↦
            rw (other, inside)
              (office_serves-Follows (th.offices (t - 1)) t (t - 1) th s v (ground (arith, inside))
                refl g)
        | inr outside ↦ rw (other, outside) (g.0, g.1, λ c. c)
      ]
    ]

    live_turn-Good :
        (t : ℕ) (th : System TlvRequest) (o : Outcome (Unit {0}))
        → Good (state_of th o)
        → Good (live_turn env junk n t (state_of th o))
    unfolding live_turn
    live_turn-Good t th (done a s) (v, g, c) = elim (Bool-cases (is_blocked env junk n t th s)) [
      | inl waits ↦ rw waits (v, g, c)
      | inr goes ↦
          let (g', c') =
            Follows-Closes (turn junk n t th) s (serves env junk n t th s)
              (turn-is_behind env junk n t th s goes c) (serves-Follows t th s v g) in
          rw goes (turn-Inv t th v, g', c')
    ]
    live_turn-Good t th (exited k) (v, g, c) = absurd g
    live_turn-Good t th fault (v, g, c) = absurd g
    live_turn-Good t th deadlock (v, g, c) = absurd g

    pub live_run-Good : (ts : List ℕ) (l : Live) → Good l → Good (live_run env junk n ts l)
    unfolding live_run
    live_run-Good [] l g = g
    live_run-Good (t ∷ ts) l g =
        live_run-Good ts (live_turn env junk n t l) (live_turn-Good t l.threads l.server g)
