-- ===== src/Ids.antt =====
-- include/picon/shared.h: a pair of a module id and a function id in one 64-bit word.
pub mod Packing
use Prim.Native.Nat.{bit_and, bit_or}
use picon.Base.{ℕ, ◌*◌, ◌/◌, ◌%◌, ◌^◌}

-- `MODULE_FUNCTION(m,f)`: the shift is done in `uint64_t`.
pub module_function : ℕ → ℕ → ℕ
module_function m f = bit_or (m * 2 ^ 32 % 2 ^ 64) (bit_and f 0xffff_ffff)

-- `MODULE_FUNCTION_GET_MODULE(r)`: the cast to `module_id` keeps 16 bits.
unfoldable pub get_module : ℕ → ℕ
get_module r = r / 2 ^ 32 % 2 ^ 16

-- `MODULE_FUNCTION_GET_FUNCTION(r)`: the cast to `function_id` keeps 32 bits.
unfoldable pub get_function : ℕ → ℕ
get_function r = bit_and r 0xffff_ffff % 2 ^ 32
