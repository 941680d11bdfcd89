-- ===== src/Wire/Stream.antt =====
-- Requests through the server's FIFO, one behind the other.
use mathlib.Core.List.{append_assoc, append-nil}
use sope.Prelude.{
  ℕ, zero, suc, ◌+◌, ◌≤◌, ◌<◌, ◌≡◌, ◌≢◌, inl, inr, Bool-cases, refl, ap, sym, ◌∙◌, List, [], ◌∷◌,
  ◌++◌, arith, length, length-append, ◌==◌, ltb, if◌then◌else◌,
}
use sope.Types.{
  OpType, op_create_account, op_balance, op_transfer, op_shutdown, op_max_number, op_unknown,
  ReqValue, TlvRequest, transfer, u32_mod, sizeof_req_header, sizeof_req_create_account,
  sizeof_req_transfer,
}
use sope.Wire.{
  Bytes, take, drop, put_u32, get_u32, put_password, header_bytes, create_bytes, value_bytes,
  value_of, overlay, op_value, op_of_value, send_request, Received, received, overruns, no_fuel,
  and_then, receive_within, receive_requests, sizeof_req_value,
}
use sope.Wire.Words.{get_u32-put_u32, take-length, drop-length, op_of_value-op_value, IsOp}
use sope.Wire.Requests.{
  HeaderFits, CreateFits, length-header_bytes, length-create_bytes, value_of-header_bytes,
  create_of-create_bytes,
}

-- A round that finds a whole message.
receive_within-message :
    (old : ℕ → Bytes × Bytes) (fuel op n : ℕ) (body stream : Bytes)
    → op < u32_mod
    → n ≡ length body
    → 0 < n
    → n ≤ sizeof_req_value
    → receive_within old (suc fuel) (put_u32 op ++ (put_u32 n ++ (body ++ stream)))
      ≡ and_then
          (record {
            type = op_of_value op;
            length = n;
            value = value_of (overlay body (old fuel).1);
          })
          (receive_within old fuel stream)
unfolding receive_within
receive_within-message old fuel op n body stream small size some_bytes fits = ground (
  arith,
  get_u32-put_u32 op (put_u32 n ++ drop 8 (old fuel).0) small,
  get_u32-put_u32 n (drop 8 (old fuel).0) (omega arith),
  ap (λ k. take k (body ++ stream)) size ∙ take-length body stream,
  ap (λ k. drop k (body ++ stream)) size ∙ drop-length body stream,
)

-- What the user program sends for an operation: the length says how much of the value is sent, and
-- that part fits its fields.
abbrev pub ArgsFit : OpType → TlvRequest → Type 0
ArgsFit op_create_account r =
    (r.length ≡ sizeof_req_header + sizeof_req_create_account) × CreateFits r.value.create
ArgsFit op_transfer r =
    (r.length ≡ sizeof_req_header + sizeof_req_transfer)
    × ((transfer r.value).account_id < u32_mod)
    × ((transfer r.value).amount < u32_mod)
ArgsFit op_balance r = r.length ≡ sizeof_req_header
ArgsFit op_shutdown r = r.length ≡ sizeof_req_header
ArgsFit _ r = ⊥

abbrev pub Fits : TlvRequest → Type 0
Fits r = HeaderFits r.value.header × ArgsFit r.type r

-- The arguments of the operation are the same.
abbrev pub SameArgs : OpType → ReqValue → ReqValue → Type 0
SameArgs op_create_account v v' = v'.create ≡ v.create
SameArgs op_transfer v v' = transfer v' ≡ transfer v
SameArgs _ v v' = Unit {0}

abbrev pub Same : TlvRequest → TlvRequest → Type 0
Same r r' =
    (r'.type ≡ r.type)
    × (r'.length ≡ r.length)
    × (r'.value.header ≡ r.value.header)
    × SameArgs r.type r.value r'.value

-- the part of the value that is sent
sent_part : ℕ → OpType → TlvRequest → Bytes
sent_part junk op_create_account r =
    header_bytes junk r.value.header ++ create_bytes junk r.value.create
sent_part junk op_transfer r =
    header_bytes junk r.value.header
    ++ (put_u32 r.value.create.account_id ++ put_u32 r.value.create.balance)
sent_part junk _ r = header_bytes junk r.value.header

take-part : (n : ℕ) (xs ys : Bytes) → n ≡ length xs → take n (xs ++ ys) ≡ xs
take-part n xs ys e = ap (λ k. take k (xs ++ ys)) e ∙ take-length xs ys

length-sent_part :
    (junk : ℕ) (op : OpType) (r : TlvRequest)
    → HeaderFits r.value.header
    → ArgsFit op r
    → (r.length ≡ length (sent_part junk op r)) × (0 < r.length) × (r.length ≤ sizeof_req_value)
unfolding sent_part
length-sent_part junk op_create_account r h a = omega (
  arith,
  length-append (header_bytes junk r.value.header) (create_bytes junk r.value.create),
  length-header_bytes junk r.value.header h,
  length-create_bytes junk r.value.create a.1,
)
length-sent_part junk op_transfer r h a = omega (
  arith,
  length-append (header_bytes junk r.value.header)
      (put_u32 r.value.create.account_id ++ put_u32 r.value.create.balance),
  length-header_bytes junk r.value.header h,
)
length-sent_part junk op_balance r h a = omega (arith, length-header_bytes junk r.value.header h)
length-sent_part junk op_shutdown r h a = omega (arith, length-header_bytes junk r.value.header h)
length-sent_part junk op_max_number r h a = absurd a
length-sent_part junk (op_unknown k) r h a = absurd a

take-value_bytes :
    (junk : ℕ) (op : OpType) (r : TlvRequest)
    → HeaderFits r.value.header
    → ArgsFit op r
    → take r.length (value_bytes junk r.value) ≡ sent_part junk op r
unfolding sent_part value_bytes
take-value_bytes junk op_create_account r h a =
    ap (take r.length)
      (sym (append-nil (header_bytes junk r.value.header ++ create_bytes junk r.value.create)))
    ∙ take-part r.length _ [] (length-sent_part junk op_create_account r h a).0
take-value_bytes junk op_transfer r h a =
    ap (take r.length) (
      sym (
        append_assoc (header_bytes junk r.value.header)
          (put_u32 r.value.create.account_id ++ put_u32 r.value.create.balance)
          (put_password junk r.value.create.password)))
    ∙ take-part r.length _ _ (length-sent_part junk op_transfer r h a).0
take-value_bytes junk op_balance r h a =
    take-part r.length _ _ (length-sent_part junk op_balance r h a).0
take-value_bytes junk op_shutdown r h a =
    take-part r.length _ _ (length-sent_part junk op_shutdown r h a).0
take-value_bytes junk op_max_number r h a = absurd a
take-value_bytes junk (op_unknown k) r h a = absurd a

-- what is read of it, over any old memory
sent_part-Same :
    (junk : ℕ) (op : OpType) (r : TlvRequest) (m : Bytes)
    → HeaderFits r.value.header
    → ArgsFit op r
    → let v = value_of (sent_part junk op r ++ m) in
      (v.header ≡ r.value.header) × SameArgs op r.value v
unfolding sent_part
sent_part-Same junk op_create_account r m h a =
    let e =
      ap value_of
        (append_assoc (header_bytes junk r.value.header) (create_bytes junk r.value.create) m)
      ∙ value_of-header_bytes junk r.value.header (create_bytes junk r.value.create ++ m) h in
    (
      ap (λ (v : ReqValue). v.header) e,
      ap (λ (v : ReqValue). v.create) e ∙ create_of-create_bytes junk r.value.create m a.1,
    )
sent_part-Same junk op_transfer r m h a =
    let words = put_u32 r.value.create.account_id ++ put_u32 r.value.create.balance in
    let e =
      ap value_of (append_assoc (header_bytes junk r.value.header) words m)
      ∙ value_of-header_bytes junk r.value.header (words ++ m) h in
    (
      ap (λ (v : ReqValue). v.header) e,
      ap transfer e
          ∙ ground (
            arith,
            get_u32-put_u32 r.value.create.account_id (put_u32 r.value.create.balance ++ m) a.1,
            get_u32-put_u32 r.value.create.balance m a.2,
          ),
    )
sent_part-Same junk op_balance r m h a =
    (ap (λ (v : ReqValue). v.header) (value_of-header_bytes junk r.value.header m h), tt)
sent_part-Same junk op_shutdown r m h a =
    (ap (λ (v : ReqValue). v.header) (value_of-header_bytes junk r.value.header m h), tt)
sent_part-Same junk op_max_number r m h a = absurd a
sent_part-Same junk (op_unknown k) r m h a = absurd a

-- One request and the rest of the stream.
receive_within-request :
    (junk : ℕ) (old : ℕ → Bytes × Bytes) (fuel : ℕ) (r : TlvRequest) (stream : Bytes)
    → Fits r
    → (r' : TlvRequest) × (receive_within old (suc fuel) (send_request junk r ++ stream)
        ≡ and_then r' (receive_within old fuel stream))
      × Same r r'
unfolding send_request
receive_within-request junk old fuel r stream (h, a) = (
  r',
  shape
      ∙ receive_within-message old fuel (op_value r.type) r.length part stream (small r.type a)
          size.0 size.1 size.2,
  (op_of_value-op_value r.type (known r.type a), refl, same.0, same.1),
)
  where
    part : Bytes
    part = sent_part junk r.type r

    r' : TlvRequest
    r' = record {
      type = op_of_value (op_value r.type);
      length = r.length;
      value = value_of (overlay part (old fuel).1);
    }

    size : (r.length ≡ length part) × (0 < r.length) × (r.length ≤ sizeof_req_value)
    size = length-sent_part junk r.type r h a

    shape :
        receive_within old (suc fuel) (send_request junk r ++ stream)
        ≡ receive_within old
            (suc fuel)
            (put_u32 (op_value r.type) ++ (put_u32 r.length ++ (part ++ stream)))
    shape =
        ap
          (λ p.
            receive_within old (suc fuel)
              (put_u32 (op_value r.type) ++ (put_u32 r.length ++ (p ++ stream))))
          (take-value_bytes junk r.type r h a)

    small : (op : OpType) → ArgsFit op r → op_value op < u32_mod
    small op_create_account a = omega arith
    small op_transfer a = omega arith
    small op_balance a = omega arith
    small op_shutdown a = omega arith
    small op_max_number a = absurd a
    small (op_unknown k) a = absurd a

    known : (op : OpType) → ArgsFit op r → IsOp op
    known op_create_account a = tt
    known op_transfer a = tt
    known op_balance a = tt
    known op_shutdown a = tt
    known op_max_number a = absurd a
    known (op_unknown k) a = absurd a

    same : (r'.value.header ≡ r.value.header) × SameArgs r.type r.value r'.value
    same = sent_part-Same junk r.type r (drop (length part) (old fuel).1) h a

abbrev pub send_all : ℕ → List TlvRequest → Bytes
send_all junk [] = []
send_all junk (r ∷ rs) = send_request junk r ++ send_all junk rs

abbrev pub AllFit : List TlvRequest → Type 0
AllFit [] = Unit {0}
AllFit (r ∷ rs) = Fits r × AllFit rs

abbrev pub AllSame : List TlvRequest → List TlvRequest → Type 0
AllSame [] [] = Unit {0}
AllSame (r ∷ rs) (r' ∷ rs') = Same r r' × AllSame rs rs'
AllSame _ _ = ⊥

receive_within-end :
    (old : ℕ → Bytes × Bytes) (fuel : ℕ) → receive_within old (suc fuel) [] ≡ received []
unfolding receive_within
receive_within-end old fuel = ground (arith, take-nil (get_u32 (get_u32 (old fuel).0).1).0)
  where
    take-nil : (n : ℕ) → take {A = ℕ} n [] ≡ []
    take-nil zero = refl
    take-nil (suc n) = refl

receive_within-send_all :
    (junk : ℕ) (old : ℕ → Bytes × Bytes) (fuel : ℕ) (rs : List TlvRequest)
    → AllFit rs
    → length rs < fuel
    → (rs' : List TlvRequest) × (receive_within old fuel (send_all junk rs) ≡ received rs')
      × AllSame rs rs'
receive_within-send_all junk old zero rs fits enough = absurd (omega arith)
receive_within-send_all junk old (suc fuel) [] fits enough = ([], receive_within-end old fuel, tt)
receive_within-send_all junk old (suc fuel) (r ∷ rs) fits enough =
    let (r', e, same) = receive_within-request junk old fuel r (send_all junk rs) fits.0 in
    let (rs', e', all) = receive_within-send_all junk old fuel rs fits.1 (omega arith) in
    (r' ∷ rs', e ∙ ap (and_then r') e', (same, all))

length-send_all : (junk : ℕ) (rs : List TlvRequest) → length rs ≤ length (send_all junk rs)
unfolding send_request
length-send_all junk [] = omega arith
length-send_all junk (r ∷ rs) =
    omega (arith, length-send_all junk rs, length-append (send_request junk r) (send_all junk rs))

-- Whatever was in memory before: what the user program has sent, any number of requests one behind
-- the other whose fields fit, is what `readRequests` puts into the queue, in the same order, with
-- the same type, length, header and arguments of the operation.
pub receive_requests-send_all :
    (junk : ℕ) (old : ℕ → Bytes × Bytes) (rs : List TlvRequest)
    → AllFit rs
    → (rs' : List TlvRequest) × (receive_requests old (send_all junk rs) ≡ received rs')
      × AllSame rs rs'
unfolding receive_requests
receive_requests-send_all junk old rs fits =
    receive_within-send_all junk old (suc (length (send_all junk rs))) rs fits
      (omega (arith, length-send_all junk rs))

length-take-drop : (n : ℕ) (xs : Bytes) → length (drop n xs) + length (take n xs) ≡ length xs
length-take-drop zero xs = omega arith
length-take-drop (suc n) [] = omega arith
length-take-drop (suc n) (x ∷ xs) = omega (arith, length-take-drop n xs)

and_then-ne : (r : TlvRequest) (m : Received) → m ≢ no_fuel → and_then r m ≢ no_fuel
and_then-ne r (received rs) h = λ e. cc
and_then-ne r overruns h = λ e. cc
and_then-ne r no_fuel h = absurd (h refl)

-- the two tests of a round
round-ends :
    (new : Bytes) (r : TlvRequest) (more : Received)
    → (0 < length new → more ≢ no_fuel)
    → (if length new == 0
        then received []
        else if ltb sizeof_req_value (length new)
        then overruns
        else and_then r more)
      ≢ no_fuel
round-ends new r more h = elim (Bool-cases (length new == 0)) [
  | inl none_left ↦ rw none_left (λ e. cc)
  | inr some_left ↦ elim (Bool-cases (ltb sizeof_req_value (length new))) [
    | inl long ↦ rw (some_left, long) (λ e. cc)
    | inr fits ↦ rw (some_left, fits) (and_then-ne r more (h (ground arith)))
  ]
]

receive_within-ends :
    (old : ℕ → Bytes × Bytes) (fuel : ℕ) (stream : Bytes)
    → length stream < fuel
    → receive_within old fuel stream ≢ no_fuel
unfolding receive_within
receive_within-ends old zero stream enough = absurd (omega arith)
receive_within-ends old (suc fuel) stream enough =
    let n = (get_u32 (get_u32 (overlay (take 8 stream) (old fuel).0)).1).0 in
    round-ends (take n (drop 8 stream)) _ _ (λ some_left.
      receive_within-ends old fuel (drop n (drop 8 stream))
        (omega (arith, length-take-drop n (drop 8 stream), length-take-drop 8 stream)))

-- The loop of `readRequests` ends on every sequence of bytes, well formed or not: each round but
-- the last takes some.
receive_requests-ends :
    (old : ℕ → Bytes × Bytes) (stream : Bytes) → receive_requests old stream ≢ no_fuel
unfolding receive_requests
receive_requests-ends old stream =
    receive_within-ends old (suc (length stream)) stream (omega arith)
