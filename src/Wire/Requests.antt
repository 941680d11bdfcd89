-- ===== src/Wire/Requests.antt =====
-- One request, written and read back.
use mathlib.Core.List.{append_assoc}
use sope.Prelude.{ℕ, ◌≤◌, ◌<◌, ◌≡◌, ap, ◌∙◌, ◌++◌, arith, length, length-append}
use sope.Types.{
  u32_mod, max_password_len, ReqHeader, ReqCreateAccount, sizeof_req_header,
  sizeof_req_create_account,
}
use sope.Wire.{
  Bytes, put_u32, get_u32, put_password, header_bytes, create_bytes, create_of, value_of,
}
use sope.Wire.Words.{
  get_u32-put_u32, NoZero, drop-put_password, c_string-put_password, length-put_password,
}

-- Fields that fit: words of 32 bits, and a string that leaves room for its terminator.
pub record HeaderFits (h : ReqHeader) : Type 0 where
  pub pid : h.pid < u32_mod
  pub account_id : h.account_id < u32_mod
  pub delay : h.op_delay_ms < u32_mod
  pub password : NoZero h.password × (length h.password ≤ max_password_len)

pub record CreateFits (c : ReqCreateAccount) : Type 0 where
  pub account_id : c.account_id < u32_mod
  pub balance : c.balance < u32_mod
  pub password : NoZero c.password × (length c.password ≤ max_password_len)

pub length-header_bytes :
    (junk : ℕ) (h : ReqHeader) → HeaderFits h → length (header_bytes junk h) ≡ sizeof_req_header
length-header_bytes junk h f = omega (
  arith,
  length-append (put_password junk h.password) (put_u32 h.op_delay_ms),
  length-put_password junk h.password f.password.1,
)

pub length-create_bytes :
    (junk : ℕ) (c : ReqCreateAccount)
    → CreateFits c
    → length (create_bytes junk c) ≡ sizeof_req_create_account
length-create_bytes junk c f = omega (arith, length-put_password junk c.password f.password.1)

-- Whatever follows the header in memory, it is read back.
pub value_of-header_bytes :
    (junk : ℕ) (h : ReqHeader) (m : Bytes)
    → HeaderFits h
    → value_of (header_bytes junk h ++ m) ≡ record { header = h; create = create_of m }
unfolding value_of
value_of-header_bytes junk h m f =
    ap (λ rest. value_of (put_u32 h.pid ++ (put_u32 h.account_id ++ rest)))
      (append_assoc (put_password junk h.password) (put_u32 h.op_delay_ms) m)
    ∙ ground (
      arith,
      get_u32-put_u32 h.pid (put_u32 h.account_id ++ behind) f.pid,
      get_u32-put_u32 h.account_id behind f.account_id,
      c_string-put_password junk h.password (put_u32 h.op_delay_ms ++ m) f.password.0,
      ap get_u32 (drop-put_password junk h.password (put_u32 h.op_delay_ms ++ m) f.password.1)
          ∙ get_u32-put_u32 h.op_delay_ms m f.delay,
    )
  where
    behind : Bytes
    behind = put_password junk h.password ++ (put_u32 h.op_delay_ms ++ m)

pub create_of-create_bytes :
    (junk : ℕ) (c : ReqCreateAccount) (m : Bytes)
    → CreateFits c
    → create_of (create_bytes junk c ++ m) ≡ c
create_of-create_bytes junk c m f = ground (
  arith,
  get_u32-put_u32 c.account_id (put_u32 c.balance ++ (put_password junk c.password ++ m))
      f.account_id,
  get_u32-put_u32 c.balance (put_password junk c.password ++ m) f.balance,
  c_string-put_password junk c.password m f.password.0,
)
