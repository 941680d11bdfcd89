-- ===== src/Life/Servable.antt =====
-- The requests that the server can perform: what its tables, its paths and its delays have room for.
use sope.Prelude.{
  ℕ, zero, suc, ◌≤◌, ◌<◌, ◌≡◌, inl, inr, refl, sym, ap, ◌∙◌, Bool, true, false, not, ◌&&◌, List, [],
  ◌∷◌, ◌++◌, some, Text, arith, ltb, leb, ◌==◌, Bool-cases,
}
use sope.Prelude.Array.{sum_below}
use sope.Types.{
  TlvRequest, OpType, op_create_account, op_balance, op_transfer, op_shutdown, ReqValue, transfer,
  max_bank_accounts, max_balance,
}
use sope.Fifo.{get_user_fifo_path, user_fifo_path_prefix}
use sope.Fifo.Laws.{get_user_fifo_path-digits}
use sope.Office.Invariant.{BalanceAllowed}
use sope.Office.Serves.{IsRequest, ArgsInRange}
use sope.Wire.Stream.{Same, AllSame}
use sope.Threads.{o_manages, System}
use sope.Threads.Invariant.{Inv, count, held}

-- The account that the arguments name is in the table, and a first balance is one that it may have.
abbrev pub args_in : OpType → ReqValue → Bool
args_in op_create_account v =
    ltb v.create.account_id max_bank_accounts && leb v.create.balance max_balance
args_in op_transfer v = ltb (transfer v).account_id max_bank_accounts
args_in op_balance v = true
args_in op_shutdown v = true
args_in _ v = false

-- The server has room for the ids of the request, its path and its delay.
unfoldable pub is_servable : TlvRequest → Bool
is_servable r =
    ltb r.value.header.account_id max_bank_accounts
    && ltb r.value.header.op_delay_ms 2_147_484
    && ltb r.value.header.pid 100_000
    && args_in r.type r.value

abbrev pub AllServable : List TlvRequest → Type 0
AllServable [] = Unit {0}
AllServable (r ∷ rs) = (is_servable r ≡ true) × AllServable rs

args_in-ArgsInRange :
    (op : OpType) (r : TlvRequest)
    → args_in op r.value ≡ true
    → ArgsInRange r op × BalanceAllowed r op
args_in-ArgsInRange op_create_account r h = ground arith
args_in-ArgsInRange op_transfer r h = (ground arith, tt)
args_in-ArgsInRange op_balance r h = (tt, tt)
args_in-ArgsInRange op_shutdown r h = (tt, tt)
args_in-ArgsInRange _ r h = absurd (cc h)

pub is_servable-IsRequest :
    (r : TlvRequest)
    → is_servable r ≡ true
    → IsRequest r
      × BalanceAllowed r r.type
      × (path : Text) × (get_user_fifo_path r.value.header.pid ≡ some path)
unfolding is_servable
is_servable-IsRequest r h =
    let (inside, allowed) = args_in-ArgsInRange r.type r (ground (arith, h)) in
    let (digits, e, size, value) =
      get_user_fifo_path-digits r.value.header.pid (ground (arith, h)) in
    (
      record { id_in = ground (arith, h); args_in = inside; short = inl (ground (arith, h)) },
      allowed,
      user_fifo_path_prefix ++ digits,
      e,
    )

args_in-Same :
    (op : OpType) (r r' : TlvRequest)
    → Same (record r { type = op }) r'
    → args_in op r'.value ≡ args_in op r.value
args_in-Same op_create_account r r' (t, l, h, a) =
    ap (λ c. ltb c.account_id max_bank_accounts && leb c.balance max_balance) a
args_in-Same op_transfer r r' (t, l, h, a) = ap (λ c. ltb c.account_id max_bank_accounts) a
args_in-Same op_balance r r' s = refl
args_in-Same op_shutdown r r' s = refl
args_in-Same _ r r' s = refl

is_servable-Same : (r r' : TlvRequest) → Same r r' → is_servable r ≡ true → is_servable r' ≡ true
unfolding is_servable
is_servable-Same r r' s h =
    let same = args_in-Same r.type r r' s in let (t, l, header, a) = s in simp (t, header, same) h

pub AllSame-AllServable :
    (rs rs' : List TlvRequest) → AllSame rs rs' → AllServable rs → AllServable rs'
AllSame-AllServable [] [] s h = tt
AllSame-AllServable [] (r' ∷ rs') s h = absurd s
AllSame-AllServable (r ∷ rs) [] s h = absurd s
AllSame-AllServable (r ∷ rs) (r' ∷ rs') s h =
    (is_servable-Same r r' s.0 h.0, AllSame-AllServable rs rs' s.1 h.1)

abbrev refused : TlvRequest → Bool
refused r = not (is_servable r)

count-refused : (rs : List TlvRequest) → AllServable rs → count refused rs ≡ 0
unfolding count
count-refused [] h = refl
count-refused (r ∷ rs) h = ground (arith, h.0, count-refused rs h.1)

count-prefix :
    {A : Type 0} (test : A → Bool) (xs ys : List A) → count test xs ≤ count test (xs ++ ys)
unfolding count
count-prefix test [] ys = omega arith
count-prefix test (x ∷ xs) ys = omega (arith, count-prefix test xs ys)

le-sum_below : (f : ℕ → ℕ) (n i : ℕ) → i < n → f i ≤ sum_below n f
unfolding sum_below
le-sum_below f zero i h = elim h [ ]
le-sum_below f (suc n) i h = elim (Bool-cases (i == n)) [
  | inl last ↦ let e : i ≡ n = ground (arith, last) in omega (arith, ap f e)
  | inr other ↦ omega (arith, le-sum_below f n i (ground (arith, h, other)))
]

-- An office that is at `manageRequest` has a request that came in.
pub manages-servable :
    (junk : TlvRequest) (n : ℕ) (rs : List TlvRequest) (s : System TlvRequest)
    → Inv junk n rs s
    → AllServable rs
    → (i : ℕ) (r : TlvRequest) → i < n
    → s.offices i ≡ o_manages r
    → is_servable r ≡ true
manages-servable junk n rs s v all i r inside at =
    let none_taken : count refused s.taken ≡ 0 =
      omega (
        arith,
        count-prefix refused s.taken _,
        ap (count refused) v.history,
        count-refused rs all,
      ) in
    let none_held : held refused (s.offices i) ≡ 0 = omega (
      arith,
      v.counted refused,
      le-sum_below (λ j. held refused (s.offices j)) n i inside,
      none_taken,
    ) in
    let here : held refused (o_manages r) ≡ 0 = sym (ap (held refused) at) ∙ none_held in
    ground (arith, here)
