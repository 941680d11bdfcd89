-- ===== src/Accounts/Salt.antt =====
-- `generateSalt`: the loop stays inside its buffer and leaves a terminated string of digits there.
use mathlib.Core.List.{append_assoc}
use sope.Prelude.{
  ℕ, zero, suc, ◌+◌, ◌%◌, ◌≤◌, ◌≡◌, ◌⊎◌, refl, sym, ap, ◌∙◌, [], ◌∷◌, ◌++◌, Text, arith, length,
  length-replicate, replicate, set, ◌==◌, if◌then◌else◌,
}
use sope.Types.{salt_len}
use sope.State.{Env, Server, Outcome, done}
use sope.Accounts.{salt_loop, hex_digit, c_string, salt_buffer, generate_salt}

-- the digits for the `n` random numbers from number k on
pub salt_digits : (ℕ → ℕ) → ℕ → ℕ → Text
salt_digits rand k zero = []
salt_digits rand k (suc n) = hex_digit (rand k % 16) ∷ salt_digits rand (k + 1) n

-- a digit that `"%x"` prints
abbrev pub IsHexDigit : ℕ → Type 0
IsHexDigit c = ((b'0' ≤ c) × (c ≤ b'9')) ⊎ ((b'a' ≤ c) × (c ≤ b'f'))

abbrev pub AllHex : Text → Type 0
AllHex [] = Unit {0}
AllHex (c ∷ cs) = IsHexDigit c × AllHex cs

hex_digit-IsHexDigit : (r : ℕ) → IsHexDigit (hex_digit (r % 16))
hex_digit-IsHexDigit r = ground arith

salt_digits-AllHex : (rand : ℕ → ℕ) (k n : ℕ) → AllHex (salt_digits rand k n)
unfolding salt_digits
salt_digits-AllHex rand k zero = tt
salt_digits-AllHex rand k (suc n) =
    (hex_digit-IsHexDigit (rand k), salt_digits-AllHex rand (k + 1) n)

length-salt_digits : (rand : ℕ → ℕ) (k n : ℕ) → length (salt_digits rand k n) ≡ n
unfolding salt_digits
length-salt_digits rand k zero = refl
length-salt_digits rand k (suc n) = ap suc (length-salt_digits rand (k + 1) n)

set-append :
    (pre : Text) (x v i : ℕ) (rest : Text)
    → i ≡ length pre
    → set (pre ++ x ∷ rest) i v ≡ pre ++ v ∷ rest
set-append [] x v zero rest h = refl
set-append [] x v (suc i) rest h = absurd (omega arith)
set-append (p ∷ pre) x v zero rest h = absurd (omega arith)
set-append (p ∷ pre) x v (suc i) rest h = ap (◌∷◌ p) (set-append pre x v i rest (omega arith))

length-snoc : (pre : Text) (x : ℕ) → length (pre ++ x ∷ []) ≡ length pre + 1
length-snoc [] x = omega arith
length-snoc (p ∷ pre) x = omega (arith, length-snoc pre x)

-- One round, behind the digits `pre`.
round :
    (pre : Text) (x y d i : ℕ) (rest : Text)
    → i ≡ length pre
    → set (set (pre ++ x ∷ y ∷ rest) i d) (i + 1) 0 ≡ (pre ++ d ∷ []) ++ 0 ∷ rest
round pre x y d i rest h = rw (set-append pre x d i (y ∷ rest) h) (
    ap (λ l. set l (i + 1) 0) (sym (append_assoc pre (d ∷ []) (y ∷ rest)))
    ∙ set-append (pre ++ d ∷ []) y 0 (i + 1) rest (omega (arith, length-snoc pre d)))

salt_loop-eq :
    (rand : ℕ → ℕ) (k n i : ℕ) (pre : Text) (z : ℕ) (rest : Text)
    → i ≡ length pre
    → length rest ≡ n
    → salt_loop rand k n i (pre ++ z ∷ rest)
      ≡ pre ++ (salt_digits rand k n ++ (if n == 0 then z else 0) ∷ [])
unfolding salt_loop salt_digits
salt_loop-eq rand k zero i pre z [] h e = refl
salt_loop-eq rand k zero i pre z (y ∷ rest) h e = absurd (omega arith)
salt_loop-eq rand k (suc n) i pre z [] h e = absurd (omega arith)
salt_loop-eq rand k (suc n) i pre z (y ∷ rest) h e =
    ap (salt_loop rand (k + 1) n (i + 1)) (round pre z y (hex_digit (rand k % 16)) i rest h)
    ∙ salt_loop-eq rand (k + 1) n (i + 1) (pre ++ hex_digit (rand k % 16) ∷ []) 0 rest
        (omega (arith, length-snoc pre (hex_digit (rand k % 16)))) (omega arith)
    ∙ append_assoc pre (hex_digit (rand k % 16) ∷ [])
        (salt_digits rand (k + 1) n ++ (if n == 0 then 0 else 0) ∷ [])
    ∙ ap (λ w. pre ++ (hex_digit (rand k % 16) ∷ (salt_digits rand (k + 1) n ++ w ∷ [])))
        (ground arith)

c_string-hex : (t : Text) → AllHex t → c_string (t ++ 0 ∷ []) ≡ t
c_string-hex [] h = refl
c_string-hex (c ∷ cs) h = ground (arith, c_string-hex cs h.1)

-- The salt that `generateSalt` makes of the random numbers from number k on.
pub new_salt : Env → ℕ → Text
new_salt env k = salt_digits env.rand k salt_len

salt_buffer-eq :
    (env : Env) (s : Server) → salt_buffer env s.rand_calls ≡ new_salt env s.rand_calls ++ 0 ∷ []
unfolding new_salt
salt_buffer-eq env s =
    salt_loop-eq env.rand s.rand_calls salt_len 0 [] env.heap_byte
      (replicate salt_len env.heap_byte) refl (length-replicate salt_len env.heap_byte)

new_salt-AllHex : (env : Env) (s : Server) → AllHex (new_salt env s.rand_calls)
unfolding new_salt
new_salt-AllHex env s = salt_digits-AllHex env.rand s.rand_calls salt_len

pub generate_salt_lem :
    (env : Env) (s : Server)
    → generate_salt env s
      ≡ done (new_salt env s.rand_calls) (record s { rand_calls = s.rand_calls + salt_len })
unfolding generate_salt
generate_salt_lem env s =
    ap {B = Outcome Text} (λ t. done t (record s { rand_calls = s.rand_calls + salt_len }))
      (ap c_string (salt_buffer-eq env s)
        ∙ c_string-hex (new_salt env s.rand_calls) (new_salt-AllHex env s))

-- `generateSalt` returns a terminated string of SALT_LEN hexadecimal digits, one for each of the
-- next SALT_LEN random numbers, whatever the memory held; its writes fill the buffer exactly.
pub generate_salt-AllHex :
    (env : Env) (s : Server)
    → (salt : Text) × (generate_salt env s
        ≡ done salt (record s { rand_calls = s.rand_calls + salt_len }))
      × (salt_buffer env s.rand_calls ≡ salt ++ 0 ∷ [])
      × (length salt ≡ salt_len)
      × AllHex salt
unfolding new_salt
generate_salt-AllHex env s = (
  new_salt env s.rand_calls,
  generate_salt_lem env s,
  salt_buffer-eq env s,
  length-salt_digits env.rand s.rand_calls salt_len,
  new_salt-AllHex env s,
)
