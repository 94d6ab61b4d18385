-- ===== src/Stratum/Extranonce.antt =====
-- apps/stratum/src/utils/extranonce.utils.ts: the size of the extranonce. `raw` is what `parseInt` makes of
-- the setting, none for NaN.
use hashden.Common.{ℕ, ◌+◌, ◌*◌, ◌≤◌, Option, none, some, if◌then◌else◌, ltb, arith}
use hashden.Common.Int.{ℤ, pos, negsuc}

-- EXTRANONCE1_SIZE_BYTES
abbrev pub extranonce1_size_bytes : ℕ
extranonce1_size_bytes = 4

-- DEFAULT_EXTRANONCE2_SIZE_BYTES
abbrev pub default_extranonce2_size_bytes : ℕ
default_extranonce2_size_bytes = 8

-- `Math.min(raw, 16)`
abbrev pub at_most_16 : ℕ → ℕ
at_most_16 n = if ltb 16 n then 16 else n

unfoldable pub get_extranonce2_size_bytes : Option ℤ → ℕ
get_extranonce2_size_bytes none = default_extranonce2_size_bytes
get_extranonce2_size_bytes (some (negsuc n)) = default_extranonce2_size_bytes
get_extranonce2_size_bytes (some (pos n)) =
    if ltb n 1 then default_extranonce2_size_bytes else at_most_16 n

abbrev pub extranonce_region_hex_len : ℕ → ℕ
extranonce_region_hex_len size = (extranonce1_size_bytes + size) * 2

pub get_extranonce2_size_bytes_bounds :
    (raw : Option ℤ) → (1 ≤ get_extranonce2_size_bytes raw) × (get_extranonce2_size_bytes raw ≤ 16)
unfolding get_extranonce2_size_bytes
get_extranonce2_size_bytes_bounds none = omega arith
get_extranonce2_size_bytes_bounds (some (negsuc n)) = omega arith
get_extranonce2_size_bytes_bounds (some (pos n)) = ground arith
