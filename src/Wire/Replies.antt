-- ===== src/Wire/Replies.antt =====
-- A reply, written and read back.
use mathlib.Core.List.{append-nil}
use sope.Prelude.{
  ℕ, ◌+◌, ◌≤◌, ◌<◌, ◌≡◌, ◌⊎◌, inl, inr, refl, ap, sym, ◌∙◌, [], ◌++◌, some, arith, length,
}
use sope.Types.{
  RetCode, RepValue, rc_ok, rc_srv_down, rc_srv_timeout, rc_usr_down, rc_login_fail, rc_op_nallow,
  rc_id_in_use, rc_id_not_found, rc_same_id, rc_no_funds, rc_too_high, rc_other, ret_code_value,
  TlvReply, u32_mod, sizeof_rep_header, sizeof_rep_word,
}
use sope.Wire.{
  Bytes, take, drop, put_u32, get_u32, put_word, overlay, op_value, op_of_value, ret_code_of,
  send_reply_bytes, read_reply, new_reply_bytes, reply_value_of,
}
use sope.Wire.Words.{get_u32-put_u32, take-length, IsOp, op_of_value-op_value}

pub ret_code_of-value : (c : RetCode) → ret_code_of (ret_code_value c) ≡ c
unfolding ret_code_value
ret_code_of-value rc_ok = refl
ret_code_of-value rc_srv_down = refl
ret_code_of-value rc_srv_timeout = refl
ret_code_of-value rc_usr_down = refl
ret_code_of-value rc_login_fail = refl
ret_code_of-value rc_op_nallow = refl
ret_code_of-value rc_id_in_use = refl
ret_code_of-value rc_id_not_found = refl
ret_code_of-value rc_same_id = refl
ret_code_of-value rc_no_funds = refl
ret_code_of-value rc_too_high = refl
ret_code_of-value rc_other = refl

-- Two forms of reply: the header alone, or the header and a word that was written.
abbrev pub WordFits : TlvReply → Type 0
WordFits r =
    (r.length ≡ sizeof_rep_header)
    ⊎ ((r.length ≡ sizeof_rep_header + sizeof_rep_word)
        × ((w : ℕ) × (w < u32_mod) × (r.value.word ≡ some w)))

pub record ReplyFits (r : TlvReply) : Type 0 where
  pub known_op : IsOp r.type × (op_value r.type < u32_mod)
  pub account_id : r.value.header.account_id < u32_mod
  pub word : WordFits r

abbrev pub SameReply : TlvReply → TlvReply → Type 0
SameReply r r' =
    (r'.type ≡ r.type)
    × (r'.length ≡ r.length)
    × (r'.value.header ≡ r.value.header)
    × (r.length ≡ sizeof_rep_header + sizeof_rep_word → r'.value.word ≡ r.value.word)

take-all : (xs : Bytes) → take (length xs) xs ≡ xs
take-all xs = ap (take (length xs)) (sym (append-nil xs)) ∙ take-length xs []

read_reply-message :
    (op n : ℕ) (body : Bytes)
    → op < u32_mod
    → n ≡ length body
    → n ≤ 12
    → read_reply (put_u32 op ++ (put_u32 n ++ body))
      ≡ some (record {
        type = op_of_value op;
        length = n;
        value = reply_value_of (overlay body new_reply_bytes);
      })
unfolding read_reply
read_reply-message op n body small size fits = ground (
  arith,
  get_u32-put_u32 op (put_u32 n ++ []) small,
  get_u32-put_u32 n [] (omega arith),
  ap (λ k. take k body) size ∙ take-all body,
)

abbrev head_bytes : TlvReply → Bytes
head_bytes r = put_u32 r.value.header.account_id ++ put_u32 (ret_code_value r.value.header.ret_code)

ret_code_value-small : (c : RetCode) → ret_code_value c < u32_mod
unfolding ret_code_value
ret_code_value-small c = ground arith

reply_value_of-head_bytes :
    (r : TlvReply) (m : Bytes)
    → r.value.header.account_id < u32_mod
    → reply_value_of (head_bytes r ++ m)
      ≡ record { header = r.value.header; word = some (get_u32 m).0 }
reply_value_of-head_bytes r m small = ground (
  arith,
  get_u32-put_u32 r.value.header.account_id (put_u32 (ret_code_value r.value.header.ret_code) ++ m)
      small,
  get_u32-put_u32 (ret_code_value r.value.header.ret_code) m
      (ret_code_value-small r.value.header.ret_code),
  ret_code_of-value r.value.header.ret_code,
)

-- the reply that arrives, with these bytes behind the header
abbrev arrived : TlvReply → Bytes → TlvReply
arrived r m = record {
  type = op_of_value (op_value r.type);
  length = r.length;
  value = reply_value_of (head_bytes r ++ m);
}

-- What `sendReply` writes into the user's FIFO, `awaitReply` reads from it: the type, the length,
-- the account and the code, and the word behind them where the length counts one.
pub read_reply-send_reply_bytes :
    (junk : ℕ) (r : TlvReply)
    → ReplyFits r
    → (r' : TlvReply) × (read_reply (send_reply_bytes junk r) ≡ some r') × SameReply r r'
unfolding send_reply_bytes
read_reply-send_reply_bytes junk r f = elim f.word [
  | inl short ↦
      let e =
        ap
          (λ k. read_reply (
            put_u32 (op_value r.type)
            ++ (put_u32 r.length
                ++ take k (
                    put_u32 r.value.header.account_id
                    ++ (put_u32 (ret_code_value r.value.header.ret_code)
                        ++ put_word junk r.value.word)))))
          short in
      let v = reply_value_of-head_bytes r (drop 8 new_reply_bytes) f.account_id in
      (
        arrived r (drop 8 new_reply_bytes),
        e
            ∙ read_reply-message (op_value r.type) r.length (head_bytes r) f.known_op.1 short
                (omega arith),
        (
          op_of_value-op_value r.type f.known_op.0,
          refl,
          ap (λ (x : RepValue). x.header) v,
          λ long. absurd (omega arith),
        ),
      )
  | inr (long, (w, small, word)) ↦
      let e =
        ap
          (λ k. read_reply (
            put_u32 (op_value r.type)
            ++ (put_u32 r.length
                ++ take k (
                    put_u32 r.value.header.account_id
                    ++ (put_u32 (ret_code_value r.value.header.ret_code)
                        ++ put_word junk r.value.word)))))
          long in
      let e' =
        ap
          (λ o. read_reply (
            put_u32 (op_value r.type)
            ++ (put_u32 r.length
                ++ take 12 (
                    put_u32 r.value.header.account_id
                    ++ (put_u32 (ret_code_value r.value.header.ret_code) ++ put_word junk o)))))
          word in
      let v = reply_value_of-head_bytes r (put_u32 w) f.account_id in
      (
        arrived r (put_u32 w),
        e
            ∙ e'
            ∙ read_reply-message (op_value r.type) r.length (head_bytes r ++ put_u32 w) f.known_op.1
                long (omega arith),
        (
          op_of_value-op_value r.type f.known_op.0,
          refl,
          ap (λ (x : RepValue). x.header) v,
          λ again.
              ap (λ (x : RepValue). x.word) v
              ∙ ap (λ (p : ℕ × Bytes). some p.0) (get_u32-put_u32 w [] small)
              ∙ sym word,
        ),
      )
]
