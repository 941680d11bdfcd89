-- ===== src/Fifo.antt =====
-- PROJ2/src/fifoMaker.c: the path of a user's FIFO.
pub mod Laws
mod Tests
use sope.Prelude.{ℕ, Option, none, some, [], ◌∷◌, ◌++◌, Text, length, ltb, if◌then◌else◌}
use sope.Format.{zero_padded_int}

-- WIDTH_ID and USER_FIFO_PATH_PREFIX of constants.h
abbrev pub width_id : ℕ
width_id = 5

-- "/tmp/secure_"
abbrev pub user_fifo_path_prefix : Text
user_fifo_path_prefix =
    b'/' ∷ b't' ∷ b'm' ∷ b'p' ∷ b'/' ∷ b's' ∷ b'e' ∷ b'c' ∷ b'u' ∷ b'r' ∷ b'e' ∷ b'_' ∷ []

-- `userPID` has room for WIDTH_ID bytes and the terminator; `none` is a write past its end.
unfoldable pub get_user_fifo_path : ℕ → Option Text
get_user_fifo_path pid =
    let user_pid = zero_padded_int width_id pid in
    if ltb width_id (length user_pid) then none else some (user_fifo_path_prefix ++ user_pid)
