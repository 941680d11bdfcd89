-- ===== src/Parallel/Writing.antt =====
-- The steps that run a handler's tests or write an account.
use sope.Prelude.{
  ℕ, ◌+◌, ◌-◌, ◌≡◌, inl, inr, refl, sym, subst, ap, ◌∙◌, true, false, List, [], arith, ◌==◌, Text,
  Bool-cases,
}
use sope.Types.{
  BankAccount, ReqTransfer, TlvRequest, OpType, op_create_account, op_balance, op_transfer,
  op_shutdown, op_max_number, op_unknown, transfer, u32, u32_mod, rc_ok, admin_account_id,
}
use sope.Accounts.{is_locked}
use sope.Office.Sound.{Bank, IsSound}
use sope.Office.Spec.{
  perform, put_account, put_balance, is_ok, transfer_verdict, make_transfer, first_code,
}
use sope.Office.Serves.{ArgsInRange}
use sope.Office.Invariant.{BalanceAllowed, verdict_ok, put_account-IsSound, make_transfer-IsSound}
use sope.Office.Keeps.{is_ok→eq}
use sope.Parallel.{
  Phase, p_works, p_takes, p_adds, p_creates, p_unlocks, locks_of, Shared, transfer_checks,
  account_of, after_checks, after_shutdown,
}
use sope.Parallel.Phases.{holds, changing, changing-holds, Agree, Knows, Takes}
use sope.Parallel.Moves.{Inv, Moves}

-- On accounts that agree, the tests of the code are those of the specification.
transfer_checks-verdict :
    (b serial : Bank) (src : ℕ) (req : ReqTransfer)
    → IsSound serial
    → serial.used_accounts src ≡ true
    → Agree b serial src
    → Agree b serial req.account_id
    → transfer_checks b src req ≡ transfer_verdict serial src req
unfolding transfer_checks transfer_verdict first_code
transfer_checks-verdict b serial src req v used at_src at_dest = ground (
  arith,
  at_src,
  at_dest,
  v.named src,
  v.named req.account_id,
  v.bounded src,
  v.bounded req.account_id,
  v.admin,
)

module _ (n i : ℕ) (serial : Bank) (s : Shared) (v : Inv n serial s) where
  -- The accounts whose mutexes an office holds, and is not itself writing, are up to date.
  held-settled :
      (id : ℕ)
      → holds (s.offices i) id ≡ true
      → changing (s.offices i) id ≡ false
      → Agree s.bank serial id
  held-settled id h still = v.settled id others
    where
      others : (j : ℕ) → changing (s.offices j) id ≡ false
      others j = elim (Bool-cases (changing (s.offices j) id)) [
        | inr free ↦ free
        | inl writes ↦ ground (
          arith,
          v.owned i id h,
          v.owned j id (changing-holds s.bank serial (s.offices j) id (v.knows j) writes),
        )
      ]

  -- The mutexes stay, where the new phase holds those of the old one.
  module _ (p p' : Phase) (e : s.offices i ≡ p) (same : (id : ℕ) → holds p' id ≡ holds p id)
      (b' serial' : Bank) where
    writes :
        Knows b' serial' p'
        → ((id : ℕ) → holds p id ≡ false → Agree s.bank b' id × Agree serial serial' id)
        → ((id : ℕ) → s.bank.used_accounts id ≡ true → b'.used_accounts id ≡ true)
        → ((id : ℕ)
            → changing p' id ≡ false
            → (changing p id ≡ false → Agree s.bank serial id)
            → Agree b' serial' id)
        → ((id : ℕ) → b'.used_accounts id ≡ true → serial'.used_accounts id ≡ true)
        → b'.fifo_open ≡ serial'.fifo_open
        → IsSound serial'
        → Moves i serial s p' s.account_mutexes b' serial'
    writes known frame grows settles trails fifo sound = record {
      known = known;
      frame = λ id h. frame id (rw (ap (λ q. holds q id) e) at h);
      grows = grows;
      settles = λ id c h. settles id c (λ still. h (rw e still));
      trails = trails;
      fifo = fifo;
      stays_sound = sound;
      takes = λ id h. v.owned i id (ground (arith, same id, ap (λ q. holds q id) e));
      keeps = λ id h. ground (arith, same id, ap (λ q. holds q id) e, v.owner id i h);
      leaves = λ id j ne h. h;
      respects = λ id j ne h. h;
    }

-- `serial'` is `serial` with the request done. What an office knows after its handler's tests, and
-- that no account outside its mutexes has changed in `serial'`.
module _ (n i : ℕ) (serial : Bank) (s : Shared) (v : Inv n serial s) (sha256 : Text → Text)
    (salts : ℕ → Text) (salt : Text) (r : TlvRequest) (held : List ℕ)
    (e : s.offices i ≡ p_works r held []) where
  abbrev id : ℕ
  id = r.value.header.account_id

  abbrev dest : ℕ
  dest = (transfer r.value).account_id

  at_held : (j : ℕ) → is_locked j held ≡ true → Agree s.bank serial j
  at_held j h = held-settled n i serial s v j (ap (λ q. holds q j) e ∙ h) (ap (λ q. changing q j) e)

  -- what the phase knows
  known : Knows s.bank serial (p_works r held [])
  known = subst (Knows s.bank serial) e (v.knows i)

  -- A handler that is done with its tests and writes nothing.
  unchanged : Moves i serial s (p_unlocks held) s.account_mutexes s.bank serial
  unchanged =
      writes n i serial s v (p_works r held []) (p_unlocks held) e (λ j. refl) s.bank serial known.2
        (λ j h. ((refl, refl), (refl, refl))) (λ j h. h) (λ j c h. h refl) v.behind v.same_fifo
        v.sound

  abbrev Result : OpType → Type 0
  Result op =
      Moves i serial s (after_checks sha256 salts op s.bank r held salt) s.account_mutexes
        (after_shutdown sha256 salts op s.bank r) (perform sha256 salt 0 op serial r).1

  covered :
      (op : OpType)
      → r.type ≡ op
      → (j : ℕ) → is_locked j (locks_of op r) ≡ true
      → is_locked j held ≡ true
  covered op t j h = elim (known.4 j (subst (λ o. is_locked j (locks_of o r) ≡ true) (sym t) h)) [
    | inl now ↦ now
    | inr later ↦ absurd (cc later)
  ]

  create-Moves :
      r.type ≡ op_create_account → BalanceAllowed r op_create_account → Result op_create_account
  unfolding perform
  create-Moves t allowed = elim (Bool-cases (id == admin_account_id)) [
    | inr other ↦ rw other unchanged
    | inl admin ↦ elim (Bool-cases (s.bank.used_accounts r.value.create.account_id)) [
      | inl taken ↦ rw (admin, taken, sym (here.1) ∙ taken) unchanged
      | inr fresh ↦
          rw (admin, fresh, sym (here.1) ∙ fresh)
            (writes n i serial s v (p_works r held [])
              (p_creates r (account_of sha256 salts r salt) held) e (λ j. refl) s.bank
              (put_account serial r.value.create.account_id (account_of sha256 salts r salt))
              (known.2, new_locked, ground arith, ground arith)
              (λ j h. ((refl, refl), ground (arith, new_locked))) (λ j h. h)
              (λ j c h. ground (arith, h refl)) (λ j h. ground (arith, v.behind j h)) v.same_fifo
              (put_account-IsSound serial _ _ v.sound refl allowed))
    ]
  ]
    where
      new_locked : is_locked r.value.create.account_id held ≡ true
      new_locked = covered op_create_account t r.value.create.account_id (ground arith)

      here : Agree s.bank serial r.value.create.account_id
      here = at_held r.value.create.account_id new_locked

  -- a transfer that is done in `serial'`
  abbrev paid : Bank
  paid = make_transfer serial id (transfer r.value)

  paid-elsewhere : (j : ℕ) → changing (p_takes r held) j ≡ false → Agree serial paid j
  unfolding make_transfer
  paid-elsewhere j c = ground arith

  paid-trails : (j : ℕ) → s.bank.used_accounts j ≡ true → paid.used_accounts j ≡ true
  unfolding make_transfer
  paid-trails j h = v.behind j h

  paid-fifo : s.bank.fifo_open ≡ paid.fifo_open
  unfolding make_transfer
  paid-fifo = v.same_fifo

  module _ (locked : (is_locked id held ≡ true) × (is_locked dest held ≡ true)) where
    checks :
        transfer_checks s.bank id (transfer r.value) ≡ transfer_verdict serial id (transfer r.value)
    checks =
        transfer_checks-verdict s.bank serial id (transfer r.value) v.sound (v.behind id known.1)
          (at_held id locked.0) (at_held dest locked.1)

    takes : transfer_verdict serial id (transfer r.value) ≡ rc_ok → Takes s.bank paid r held
    unfolding make_transfer
    takes ok =
        let (apart, dest_used, funded, fits) = verdict_ok serial id (transfer r.value) v.sound ok in
        let (src_same, src_used) = at_held id locked.0 in
        let (dest_same, dest_open) = at_held dest locked.1 in
        record {
          locked = locked;
          apart = apart;
          used = (known.1, dest_open ∙ dest_used, v.behind id known.1, dest_used);
          funded = ground (arith, v.sound.bounded id (v.behind id known.1));
          fits = ground arith;
          taken = ground arith;
          added = ground arith;
        }

    transfer_ok-Moves :
        transfer_verdict serial id (transfer r.value) ≡ rc_ok
        → Moves i serial s (p_takes r held) s.account_mutexes s.bank paid
    transfer_ok-Moves ok =
        writes n i serial s v (p_works r held []) (p_takes r held) e (λ j. refl) s.bank paid
          (known.2, takes ok) (λ j h. ((refl, refl), paid-elsewhere j (ground (arith, locked))))
          (λ j h. h) (λ j c h. ground (arith, h refl, paid-elsewhere j c)) paid-trails paid-fifo
          (make_transfer-IsSound serial id (transfer r.value) v.sound ok)

    transfer-Moves : Result op_transfer
    unfolding perform
    transfer-Moves = elim (Bool-cases (is_ok (transfer_verdict serial id (transfer r.value)))) [
      | inr refused ↦ rw (ap is_ok checks ∙ refused, refused) unchanged
      | inl ok ↦ rw (ap is_ok checks ∙ ok, ok) (transfer_ok-Moves (is_ok→eq _ ok))
    ]

  shutdown-Moves : Result op_shutdown
  unfolding perform
  shutdown-Moves = elim (Bool-cases (id == admin_account_id)) [
    | inr other ↦ rw other unchanged
    | inl admin ↦ rw admin (
        writes n i serial s v (p_works r held []) (p_unlocks held) e (λ j. refl)
          (record s.bank { fifo_open = false }) (record serial { fifo_open = false }) known.2
          (λ j h. ((refl, refl), (refl, refl))) (λ j h. h) (λ j c h. h refl) v.behind refl
          (record { admin = v.sound.admin; named = v.sound.named; bounded = v.sound.bounded }))
  ]

  balance-Moves : Result op_balance
  unfolding perform
  balance-Moves = elim (Bool-cases (id == admin_account_id)) [
    | inr other ↦ rw other unchanged
    | inl admin ↦ rw admin unchanged
  ]

  -- The handler of each operation.
  checks-Moves : (op : OpType) → r.type ≡ op → ArgsInRange r op → BalanceAllowed r op → Result op
  checks-Moves op_create_account t inside allowed = create-Moves t allowed
  checks-Moves op_balance t inside allowed = balance-Moves
  checks-Moves op_transfer t inside allowed =
      transfer-Moves
        (covered op_transfer t id (ground arith), covered op_transfer t dest (ground arith))
  checks-Moves op_shutdown t inside allowed = shutdown-Moves
  checks-Moves op_max_number t inside allowed = absurd inside
  checks-Moves (op_unknown k) t inside allowed = absurd inside

  pub works-Moves : Result r.type
  works-Moves = checks-Moves r.type refl known.0.0.args_in known.0.1

module _ (n i : ℕ) (serial : Bank) (s : Shared) (v : Inv n serial s) (r : TlvRequest)
    (held : List ℕ) where
  abbrev src : ℕ
  src = r.value.header.account_id

  abbrev req : ReqTransfer
  req = transfer r.value

  pub takes-Moves :
      s.offices i ≡ p_takes r held
      → Moves i serial s
          (p_adds r held)
          s.account_mutexes
          (put_balance s.bank src (u32 ((s.bank.accounts src).balance + u32_mod - req.amount)))
          serial
  takes-Moves e =
      let (d, k) = subst (Knows s.bank serial) e (v.knows i) in
      writes n i serial s v (p_takes r held) (p_adds r held) e (λ j. refl) _ serial
        (
          d,
          record {
            locked = k.locked.1;
            used = (k.used.1, k.used.3);
            fits = ground (arith, k.apart, k.fits);
            added = ground (arith, k.apart, k.added);
          },
        )
        (λ j h. (ground (arith, k.locked), (refl, refl))) (λ j h. h)
        (λ j c h. ground (arith, h, k.taken, k.funded, k.used)) v.behind v.same_fifo v.sound

  pub adds-Moves :
      s.offices i ≡ p_adds r held
      → Moves i serial s
          (p_unlocks held)
          s.account_mutexes
          (put_balance s.bank req.account_id
            (u32 ((s.bank.accounts req.account_id).balance + req.amount)))
          serial
  adds-Moves e =
      let (d, k) = subst (Knows s.bank serial) e (v.knows i) in
      writes n i serial s v (p_adds r held) (p_unlocks held) e (λ j. refl) _ serial d
        (λ j h. (ground (arith, k.locked), (refl, refl))) (λ j h. h)
        (λ j c h. ground (arith, h, k.added, k.fits, k.used)) v.behind v.same_fifo v.sound

  pub creates-Moves :
      (account : BankAccount)
      → s.offices i ≡ p_creates r account held
      → Moves i serial s
          (p_unlocks held)
          s.account_mutexes
          (put_account s.bank r.value.create.account_id account)
          serial
  creates-Moves account e =
      let (d, locked, made, used) = subst (Knows s.bank serial) e (v.knows i) in
      writes n i serial s v (p_creates r account held) (p_unlocks held) e (λ j. refl) _ serial d
        (λ j h. (ground (arith, locked), (refl, refl))) (λ j h. ground (arith, h))
        (λ j c h. ground (arith, h, made, used)) (λ j h. ground (arith, used, v.behind j))
        v.same_fifo v.sound
