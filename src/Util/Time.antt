-- ===== src/Util/Time.antt =====
-- src/core/util/time.cpp, and the system clock: a time point counts its ticks of 100 ns from 1970.
-- `toUnixNanos` and `fromUnixNanos` of src/core/util/time.cpp; the division rounds towards zero.
use vaulkeeper.Prelude.{suc, ◌*◌, ◌+◌, ◌/◌}
use vaulkeeper.Prelude.Int.{negsuc, pos, sub_ℕ, ℤ}

unfoldable pub to_unix_nanos : ℤ → ℤ
to_unix_nanos (pos n) = pos (n * 100)
to_unix_nanos (negsuc n) = negsuc (n * 100 + 99)

unfoldable pub from_unix_nanos : ℤ → ℤ
from_unix_nanos (pos n) = pos (n / 100)
from_unix_nanos (negsuc n) = sub_ℕ 0 (suc n / 100)

-- The ticks of an hour.
abbrev pub hour : ℤ
hour = pos 36000000000

-- `std::chrono::seconds { 1 }`.
abbrev pub one_second : ℤ
one_second = pos 10000000
