-- ===== src/Parallel/Phases.antt =====
-- What an office knows in each phase, and that the steps of the others do not disturb it.
use sope.Prelude.{
  ℕ, ◌+◌, ◌-◌, ◌≤◌, ◌<◌, ◌≡◌, ◌≢◌, ◌⊎◌, Bool, true, false, List, [], ◌∷◌, arith, ◌==◌, ◌||◌,
}
use sope.Types.{BankAccount, TlvRequest, transfer, max_bank_accounts, max_balance}
use sope.Accounts.{is_locked}
use sope.Office.Sound.{Bank}
use sope.Office.Serves.{IsRequest}
use sope.Office.Invariant.{BalanceAllowed}
use sope.Parallel.{
  Phase, p_idle, p_login, p_validates, p_logout, p_works, p_takes, p_adds, p_creates, p_unlocks,
  locks_of,
}

-- Whether an office in this phase holds the mutex `id`.
abbrev pub holds : Phase → ℕ → Bool
holds p_idle id = false
holds (p_login r) id = false
holds (p_validates r) id = r.value.header.account_id == id
holds (p_logout r valid) id = r.value.header.account_id == id
holds (p_works r held todo) id = is_locked id held
holds (p_takes r held) id = is_locked id held
holds (p_adds r held) id = is_locked id held
holds (p_creates r account held) id = is_locked id held
holds (p_unlocks held) id = is_locked id held

-- Whether it has still to write the account `id`.
abbrev pub changing : Phase → ℕ → Bool
changing (p_takes r held) id =
    r.value.header.account_id == id || (transfer r.value).account_id == id
changing (p_adds r held) id = (transfer r.value).account_id == id
changing (p_creates r account held) id = r.value.create.account_id == id
changing _ id = false

-- No mutex twice.
abbrev pub Distinct : List ℕ → Type 0
Distinct [] = Unit {0}
Distinct (id ∷ held) = (is_locked id held ≡ false) × Distinct held

-- The mutexes to take are in range, and each is above those held by then.
abbrev pub Ascends : List ℕ → List ℕ → Type 0
Ascends held [] = Unit {0}
Ascends held (id ∷ todo) =
    (id < max_bank_accounts)
    × ((j : ℕ) → is_locked j held ≡ true → j < id)
    × Ascends (id ∷ held) todo

-- Two banks have the same account, or none, at `id`.
abbrev pub Agree : Bank → Bank → ℕ → Type 0
Agree b b' id = (b.accounts id ≡ b'.accounts id) × (b.used_accounts id ≡ b'.used_accounts id)

abbrev pub with_balance : BankAccount → ℕ → BankAccount
with_balance account balance = record account { balance = balance }

-- A request that may be taken from the queue.
abbrev pub Allowed : TlvRequest → Type 0
Allowed r = IsRequest r × BalanceAllowed r r.type

-- Between the tests of a transfer and its first write: `b` is the bank, and `serial` the one in
-- which the transfer is done.
pub record Takes (b serial : Bank) (r : TlvRequest) (held : List ℕ) : Type 0 where
  pub locked :
      (is_locked r.value.header.account_id held ≡ true)
      × (is_locked (transfer r.value).account_id held ≡ true)
  pub apart : r.value.header.account_id ≢ (transfer r.value).account_id
  pub used :
      (b.used_accounts r.value.header.account_id ≡ true)
      × (b.used_accounts (transfer r.value).account_id ≡ true)
      × (serial.used_accounts r.value.header.account_id ≡ true)
      × (serial.used_accounts (transfer r.value).account_id ≡ true)
  pub funded :
      ((transfer r.value).amount ≤ (b.accounts r.value.header.account_id).balance)
      × ((b.accounts r.value.header.account_id).balance ≤ max_balance)
  pub fits :
      (b.accounts (transfer r.value).account_id).balance + (transfer r.value).amount ≤ max_balance
  pub taken :
      serial.accounts r.value.header.account_id
      ≡ with_balance
          (b.accounts r.value.header.account_id)
          ((b.accounts r.value.header.account_id).balance - (transfer r.value).amount)
  pub added :
      serial.accounts (transfer r.value).account_id
      ≡ with_balance
          (b.accounts (transfer r.value).account_id)
          ((b.accounts (transfer r.value).account_id).balance + (transfer r.value).amount)

-- Between the two writes.
pub record Adds (b serial : Bank) (r : TlvRequest) (held : List ℕ) : Type 0 where
  pub locked : is_locked (transfer r.value).account_id held ≡ true
  pub used :
      (b.used_accounts (transfer r.value).account_id ≡ true)
      × (serial.used_accounts (transfer r.value).account_id ≡ true)
  pub fits :
      (b.accounts (transfer r.value).account_id).balance + (transfer r.value).amount ≤ max_balance
  pub added :
      serial.accounts (transfer r.value).account_id
      ≡ with_balance
          (b.accounts (transfer r.value).account_id)
          ((b.accounts (transfer r.value).account_id).balance + (transfer r.value).amount)

abbrev pub Knows : Bank → Bank → Phase → Type 0
Knows b serial p_idle = Unit {0}
Knows b serial (p_login r) = Allowed r
Knows b serial (p_validates r) = Allowed r
Knows b serial (p_logout r valid) =
    Allowed r × (valid ≡ true → b.used_accounts r.value.header.account_id ≡ true)
Knows b serial (p_works r held todo) =
    Allowed r
    × (b.used_accounts r.value.header.account_id ≡ true)
    × Distinct held
    × Ascends held todo
    × ((id : ℕ)
        → is_locked id (locks_of r.type r) ≡ true
        → (is_locked id held ≡ true) ⊎ (is_locked id todo ≡ true))
Knows b serial (p_takes r held) = Distinct held × Takes b serial r held
Knows b serial (p_adds r held) = Distinct held × Adds b serial r held
Knows b serial (p_creates r account held) =
    Distinct held
    × (is_locked r.value.create.account_id held ≡ true)
    × (serial.accounts r.value.create.account_id ≡ account)
    × (serial.used_accounts r.value.create.account_id ≡ true)
Knows b serial (p_unlocks held) = Distinct held

-- From one pair of banks to the next: an office keeps what it knows where the accounts whose
-- mutexes it holds stay, and no account is closed.
pub Knows-frame :
    (b serial b' serial' : Bank) (p : Phase)
    → ((id : ℕ) → holds p id ≡ true → Agree b b' id × Agree serial serial' id)
    → ((id : ℕ) → b.used_accounts id ≡ true → b'.used_accounts id ≡ true)
    → Knows b serial p
    → Knows b' serial' p
Knows-frame b serial b' serial' p_idle same grows k = tt
Knows-frame b serial b' serial' (p_login r) same grows k = k
Knows-frame b serial b' serial' (p_validates r) same grows k = k
Knows-frame b serial b' serial' (p_logout r valid) same grows (ok, used) =
    (ok, λ h. grows _ (used h))
Knows-frame b serial b' serial' (p_works r held todo) same grows (ok, used, d, a, c) =
    (ok, grows _ used, d, a, c)
Knows-frame b serial b' serial' (p_takes r held) same grows (d, k) = (
  d,
  record {
    locked = k.locked;
    apart = k.apart;
    used = ground (
      arith,
      k.used,
      same r.value.header.account_id k.locked.0,
      same (transfer r.value).account_id k.locked.1,
    );
    funded = ground (arith, k.funded, same r.value.header.account_id k.locked.0);
    fits = ground (arith, k.fits, same (transfer r.value).account_id k.locked.1);
    taken = ground (arith, k.taken, same r.value.header.account_id k.locked.0);
    added = ground (arith, k.added, same (transfer r.value).account_id k.locked.1);
  },
)
Knows-frame b serial b' serial' (p_adds r held) same grows (d, k) = (
  d,
  record {
    locked = k.locked;
    used = ground (arith, k.used, same (transfer r.value).account_id k.locked);
    fits = ground (arith, k.fits, same (transfer r.value).account_id k.locked);
    added = ground (arith, k.added, same (transfer r.value).account_id k.locked);
  },
)
Knows-frame b serial b' serial' (p_creates r account held) same grows (d, locked, made, used) = (
  d,
  locked,
  ground (arith, same r.value.create.account_id locked),
  ground (arith, same r.value.create.account_id locked),
)
Knows-frame b serial b' serial' (p_unlocks held) same grows k = k

-- An office writes only accounts whose mutexes it holds.
pub changing-holds :
    (b serial : Bank) (p : Phase) (id : ℕ)
    → Knows b serial p
    → changing p id ≡ true
    → holds p id ≡ true
changing-holds b serial p_idle id k h = absurd (cc h)
changing-holds b serial (p_login r) id k h = absurd (cc h)
changing-holds b serial (p_validates r) id k h = absurd (cc h)
changing-holds b serial (p_logout r valid) id k h = absurd (cc h)
changing-holds b serial (p_works r held todo) id k h = absurd (cc h)
changing-holds b serial (p_takes r held) id (d, k) h = ground (arith, k.locked)
changing-holds b serial (p_adds r held) id (d, k) h = ground (arith, k.locked)
changing-holds b serial (p_creates r account held) id (d, locked, made, used) h = ground arith
changing-holds b serial (p_unlocks held) id k h = absurd (cc h)
