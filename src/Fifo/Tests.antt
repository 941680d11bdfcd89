-- ===== src/Fifo/Tests.antt =====
-- The paths of two processes.
use sope.Prelude.{◌≡◌, ◌++◌, none, some, Text, arith, length}
use sope.Libc.{digits_value}
use sope.Fifo.{get_user_fifo_path, user_fifo_path_prefix, width_id}
use sope.Fifo.Laws.{get_user_fifo_path-digits, get_user_fifo_path-overflow}

get_user_fifo_path-digits_example :
    (digits : Text) × (get_user_fifo_path 1234 ≡ some (user_fifo_path_prefix ++ digits))
    × (length digits ≡ width_id)
    × (digits_value 0 digits ≡ 1234)
get_user_fifo_path-digits_example = get_user_fifo_path-digits 1234 (omega arith)

get_user_fifo_path-overflow_example : get_user_fifo_path 123_456 ≡ none
get_user_fifo_path-overflow_example =
    get_user_fifo_path-overflow 123_456 (omega arith) (omega arith)
