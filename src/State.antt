-- ===== src/State.antt =====
-- The static variables of the server process (accounts.c, bankoffice.c), what it is given from
-- outside the repository, and the monad of its functions.
pub mod Laws
use sope.Prelude.{ℕ, Bool, List, ◌∷◌, Text}
use sope.Types.{BankAccount, TlvReply, SyncMechOp, SyncRole}

-- What the system calls of one run of `generateHash` give: which `close` calls succeed, how many
-- bytes `write` takes, and the bytes that `read` finds in the pipe from sha256sum.
pub record PipeIo : Type 0 where
  pub close_read : Bool
  pub close_write : Bool
  pub written : ℕ
  pub close_input : Bool
  pub output : Text
  pub close_output : Bool

-- The code outside the repository, numbered by calls: `rand n` is the result of call n of rand(),
-- `coprocess n text` what run n of sha256sum gives for `text`, and `fifo_opens n`, `fifo_writes n`
-- tell whether the user's FIFO opens for reply n, and takes it. `heap_byte` is what malloc leaves.
pub record Env : Type 0 where
  pub rand : ℕ → ℕ
  pub coprocess : ℕ → Text → PipeIo
  pub fifo_opens : ℕ → Bool
  pub fifo_writes : ℕ → Bool
  pub heap_byte : ℕ

-- What a thread shows to the outside, in the order in which it happens.
pub data Event : Type 0 where
  -- lines of the log, by the functions of log.c that write them
  sync_mech : (thread : ℕ) → SyncMechOp → SyncRole → (sid : ℕ) → Event
  sync_delay : (thread : ℕ) → (sid : ℕ) → (delay_ms : ℕ) → Event
  delay : (thread : ℕ) → (delay_ms : ℕ) → Event
  account_creation : (thread : ℕ) → BankAccount → Event
  reply_logged : (thread : ℕ) → TlvReply → Event
  -- usleep, the bytes written to a user's FIFO, and the end of the requests
  slept : (microseconds : ℕ) → Event
  sent : (path : Text) → TlvReply → Event
  fifo_closed : Event

-- `account_mutexes` holds the indices of the mutexes that are locked, the latest first.
-- The latest event stands first in `log`.
pub record Server : Type 0 where
  pub accounts : ℕ → BankAccount
  pub used_accounts : ℕ → Bool
  pub account_mutexes : List ℕ
  pub active_offices : List Bool
  pub fifo_open : Bool
  pub rand_calls : ℕ
  pub hash_calls : ℕ
  pub sends : ℕ
  pub log : List Event

-- `exited n` is exit(n), `fault` is undefined behaviour (an index out of range, a null pointer, a
-- value never written), `deadlock` is a thread that waits for a mutex which it holds itself.
pub data Outcome (A : Type 0) : Type 0 where
  done : A → Server → Outcome A
  exited : ℕ → Outcome A
  fault : Outcome A
  deadlock : Outcome A

abbrev pub M : Type 0 → Type 0
M A = Server → Outcome A

abbrev pub pure : {A : Type 0} → A → M A
pure a s = done a s

infixl 5 ◌>>=◌ ◌>>◌
abbrev pub ◌>>=◌ : {A B : Type 0} → M A → (A → M B) → M B
◌>>=◌ m f s = elim (m s) [
  | done a s' ↦ f a s'
  | exited n ↦ exited n
  | fault ↦ fault
  | deadlock ↦ deadlock
]

abbrev pub ◌>>◌ : {B : Type 0} → M (Unit {0}) → M B → M B
m >> k = m >>= λ _. k

abbrev pub emit : Event → M (Unit {0})
emit e s = done tt (record s { log = e ∷ s.log })
