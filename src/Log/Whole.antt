-- ===== src/Log/Whole.antt =====
-- The lines of PROJ2/src/log.c are written whole: they fit in a pipe's buffer.
use sope.Prelude.{
  ℕ, zero, suc, ◌+◌, ◌-◌, ◌≤◌, ◌<◌, ◌≡◌, refl, ap, ◌∙◌, Bool, true, false, List, [], ◌∷◌, ◌++◌,
  Option, none, some, Text, arith, length, length-append, if◌then◌else◌,
}
use sope.Prelude.Strings.{codes}
use sope.Types.{
  OpType, op_create_account, op_balance, op_transfer, op_shutdown, op_max_number, op_unknown,
  BankAccount, TlvRequest, TlvReply, transfer, max_password_len, SyncMechOp, SyncRole, mutex_lock,
  mutex_trylock, mutex_unlock, cond_signal, cond_wait, sem_init, sem_post, sem_wait, role_account,
  salt_len, hash_len,
}
use sope.Fifo.{width_id}
use sope.Wire.{take, drop}
use sope.Log.{
  Logged, no_pointer, no_case, printed, atomic_printf, in_buffer, request_info, request_tail,
  print_behind, log_request, reply_info, reply_tail, log_reply, euro, word_of, sync_mech_str,
  sync_role_letter, left_aligned, width_startend, width_delay, width_hash, log_sync_mech,
  log_sync_mech_sem, log_delay, log_sync_delay, log_bank_office_info, log_account_creation,
  width_account, width_balance,
}
use sope.Log.Width.{
  Within, within, length-pad, length-decimal, exactly, ◌&◌, spaced, int-Within, space_padded-Within,
  space_padded_int-Within, length-request_info, length-reply_info,
}

take-short : {A : Type 0} (n : ℕ) (t : List A) → length t ≤ n → take n t ≡ t
take-short zero [] h = refl
take-short zero (x ∷ xs) h = ground (arith, h)
take-short (suc n) [] h = refl
take-short (suc n) (x ∷ xs) h = ap (λ l. x ∷ l) (take-short n xs (omega (arith, h)))

-- what a logging function gives whose line is written whole
abbrev pub whole : Text → Option Text → Logged
whole info none = no_case
whole info (some tail) = printed (length (info ++ tail)) (info ++ tail)

-- at most so many bytes, if there is a text
abbrev AtMost : ℕ → Option Text → Type 0
AtMost n none = 0 ≤ n
AtMost n (some t) = length t ≤ n

print_behind-whole :
    (pipe_buf m n : ℕ) (info : Text) (tail : Option Text)
    → length info ≤ m
    → AtMost n tail
    → m + n < pipe_buf
    → print_behind pipe_buf (in_buffer pipe_buf info) tail ≡ whole info tail
unfolding atomic_printf
print_behind-whole pipe_buf m n info none h g fits = refl
print_behind-whole pipe_buf m n info (some tail) h g fits =
    ap (λ t. printed (length (t ++ tail)) (in_buffer pipe_buf (t ++ tail)))
      (take-short (pipe_buf - 1) info (omega (arith, h, fits)))
    ∙ ap (printed (length (info ++ tail))) (
        take-short (pipe_buf - 1) (info ++ tail)
          (omega (arith, h, g, fits, length-append info tail)))

request_tail-AtMost :
    (pipe_buf : ℕ) (request : TlvRequest) (op : OpType)
    → length request.value.create.password ≤ max_password_len
    → AtMost 90 (request_tail pipe_buf request op)
request_tail-AtMost pipe_buf request op_create_account h =
    let create = request.value.create in
    let parts =
      spaced (int-Within width_account create.account_id)
      & spaced (space_padded-Within width_balance create.balance)
      & exactly euro
      & exactly (codes " \"")
      & exactly create.password
      & exactly (codes "\"\n") in
    omega (arith, parts.bound, h)
request_tail-AtMost pipe_buf request op_balance h = omega arith
request_tail-AtMost pipe_buf request op_transfer h =
    let parts =
      spaced (int-Within width_account (transfer request.value).account_id)
      & spaced (space_padded-Within width_balance (transfer request.value).amount)
      & exactly euro
      & exactly (codes "\n") in
    omega (arith, parts.bound)
request_tail-AtMost pipe_buf request op_shutdown h = omega arith
request_tail-AtMost pipe_buf request op_max_number h = omega arith
request_tail-AtMost pipe_buf request (op_unknown n) h = omega arith

reply_tail-AtMost : (pipe_buf word : ℕ) (op : OpType) → AtMost 90 (reply_tail pipe_buf word op)
reply_tail-AtMost pipe_buf word op_create_account = omega arith
reply_tail-AtMost pipe_buf word op_balance =
    let parts =
      spaced (space_padded_int-Within width_balance word) & exactly euro & exactly (codes "\n") in
    omega (arith, parts.bound)
reply_tail-AtMost pipe_buf word op_transfer =
    let parts =
      spaced (space_padded_int-Within width_balance word) & exactly euro & exactly (codes "\n") in
    omega (arith, parts.bound)
reply_tail-AtMost pipe_buf word op_shutdown =
    let parts = spaced (int-Within 0 word) & exactly (codes "\n") in omega (arith, parts.bound)
reply_tail-AtMost pipe_buf word op_max_number = omega arith
reply_tail-AtMost pipe_buf word (op_unknown n) = omega arith

module _ (pipe_buf : ℕ) (posix : 512 ≤ pipe_buf) (own_pid id : ℕ) where
  -- With a pipe's buffer of the 512 bytes that POSIX promises and passwords that fit in their arrays,
  -- logRequest writes the whole line of every request, untruncated, and returns its length; a type
  -- without a line gives -2 and writes nothing.
  pub log_request-whole :
      (request : TlvRequest)
      → length request.value.header.password ≤ max_password_len
      → length request.value.create.password ≤ max_password_len
      → log_request pipe_buf own_pid id (some request)
        ≡ whole
            (request_info pipe_buf own_pid id request)
            (request_tail pipe_buf request request.type)
  unfolding log_request
  log_request-whole request h g =
      print_behind-whole pipe_buf 250 90 (request_info pipe_buf own_pid id request)
        (request_tail pipe_buf request request.type)
        (length-request_info pipe_buf own_pid id request h)
        (request_tail-AtMost pipe_buf request request.type g) (omega (arith, posix))

  -- Under the same bound logReply writes the whole line of every reply, whatever stands in a part of
  -- it that was never written, and returns its length; a type without a line gives -2.
  log_reply-whole :
      (junk : ℕ) (reply : TlvReply)
      → log_reply pipe_buf own_pid id junk (some reply)
        ≡ whole
            (reply_info pipe_buf own_pid id reply)
            (reply_tail pipe_buf (word_of pipe_buf junk reply.value.word) reply.type)
  unfolding log_reply
  log_reply-whole junk reply =
      print_behind-whole pipe_buf 133 90 (reply_info pipe_buf own_pid id reply)
        (reply_tail pipe_buf (word_of pipe_buf junk reply.value.word) reply.type)
        (length-reply_info pipe_buf own_pid id reply)
        (reply_tail-AtMost pipe_buf (word_of pipe_buf junk reply.value.word) reply.type)
        (omega (arith, posix))

-- A line that was written to its end.
abbrev pub IsWhole : Logged → Type 0
IsWhole r = (t : Text) × (r ≡ printed (length t) t)

atomic_printf-IsWhole :
    (pipe_buf : ℕ) {t : Text} {n : ℕ}
    → Within n t
    → n < pipe_buf
    → IsWhole (atomic_printf pipe_buf t)
unfolding atomic_printf
atomic_printf-IsWhole pipe_buf {t = t} h fits =
    (t, ap (printed (length t)) (take-short (pipe_buf - 1) t (omega (arith, h.bound, fits))))

sync_mech_str-Within : (smo : SyncMechOp) → Within 13 (sync_mech_str smo)
unfolding sync_mech_str
sync_mech_str-Within mutex_lock = within _ (omega arith)
sync_mech_str-Within mutex_trylock = within _ (omega arith)
sync_mech_str-Within mutex_unlock = within _ (omega arith)
sync_mech_str-Within cond_signal = within _ (omega arith)
sync_mech_str-Within cond_wait = within _ (omega arith)
sync_mech_str-Within sem_init = within _ (omega arith)
sync_mech_str-Within sem_post = within _ (omega arith)
sync_mech_str-Within sem_wait = within _ (omega arith)

open_close-Within :
    (b : Bool) → Within 10 (left_aligned width_startend (if b then codes "OPEN" else codes "CLOSE"))
open_close-Within true = within _ (omega arith)
open_close-Within false = within _ (omega arith)

letter-Within :
    (role : SyncRole) {t : Text} {n : ℕ} → Within n t → Within (suc n) (sync_role_letter role ∷ t)
letter-Within role {t = t} h = within _ (omega (arith, h.bound))

length-drop : (n : ℕ) (t : Text) → length (drop n t) ≡ length t - n
length-drop zero t = omega arith
length-drop (suc n) [] = omega arith
length-drop (suc n) (x ∷ xs) = omega (arith, length-drop n xs)

module _ (pipe_buf : ℕ) (posix : 512 ≤ pipe_buf) (id : ℕ) where
  -- Under the same bound the lines of the offices, the mutexes, the semaphores and the delays are
  -- written to their end for all numbers.
  pub log_sync-IsWhole :
      (smo : SyncMechOp) (role : SyncRole) (n m : ℕ) (b : Bool)
      → IsWhole (log_sync_mech pipe_buf id smo role n)
        × IsWhole (log_sync_mech_sem pipe_buf id smo role n m)
        × IsWhole (log_delay pipe_buf id n)
        × IsWhole (log_sync_delay pipe_buf id n m)
        × IsWhole (log_bank_office_info pipe_buf id n b)
  unfolding log_sync_mech log_sync_mech_sem log_delay log_sync_delay log_bank_office_info
  log_sync-IsWhole smo role n m b = (
    atomic_printf-IsWhole pipe_buf
        (exactly (codes "S - ")
          & int-Within width_id id
          & exactly (codes " - ")
          & letter-Within role (int-Within width_id n)
          & spaced (sync_mech_str-Within smo)
          & exactly (codes "\n"))
        (omega (arith, posix)),
    atomic_printf-IsWhole pipe_buf
        (exactly (codes "S - ")
          & int-Within width_id id
          & exactly (codes " - ")
          & letter-Within role (int-Within width_id n)
          & spaced (sync_mech_str-Within smo)
          & exactly (codes " [val=")
          & int-Within 0 m
          & exactly (codes "]\n"))
        (omega (arith, posix)),
    atomic_printf-IsWhole pipe_buf
        (exactly (codes "A - ")
          & int-Within width_id id
          & exactly (codes " - [")
          & space_padded-Within width_delay n
          & exactly (codes " ms]\n"))
        (omega (arith, posix)),
    atomic_printf-IsWhole pipe_buf
        (exactly (codes "A - ")
          & int-Within width_id id
          & exactly (codes " - ")
          & letter-Within role_account (int-Within width_id n)
          & exactly (codes " [")
          & space_padded-Within width_delay m
          & exactly (codes " ms]\n"))
        (omega (arith, posix)),
    atomic_printf-IsWhole pipe_buf
        (exactly (codes "I - ")
          & int-Within width_id id
          & exactly (codes " - ")
          & open_close-Within b
          & spaced (within _ (length-decimal n))
          & exactly (codes "\n"))
        (omega (arith, posix)),
  )

  -- An account whose salt and hash fit in their arrays has its line written to its end; no account
  -- gives -1.
  pub log_account_creation-IsWhole :
      (account : BankAccount)
      → length account.salt ≤ salt_len
      → length account.hash ≤ hash_len
      → IsWhole (log_account_creation pipe_buf id (some account))
        × (log_account_creation pipe_buf id none ≡ no_pointer)
  unfolding log_account_creation
  log_account_creation-IsWhole account s h = (
    atomic_printf-IsWhole pipe_buf
        (exactly (codes "I - ")
          & int-Within width_id id
          & exactly (codes " - ")
          & int-Within width_account account.account_id
          & spaced (within _ (length-pad b' ' salt_len account.salt 64 s))
          & exactly (codes " ...")
          & within _ (
              length-pad b' ' width_hash (drop (hash_len - width_hash) account.hash) 5
                (omega (arith, h, length-drop (hash_len - width_hash) account.hash)))
          & exactly (codes "\n"))
        (omega (arith, posix)),
    refl,
  )
