-- ===== src/Ids/Packing.antt =====
-- `MODULE_FUNCTION` and its two projections.
use picon.Base.{ℕ, ◌+◌, ◌*◌, ◌%◌, ◌^◌, ◌<◌, ◌≡◌, arith}
use picon.Base.Bits.{and_mask, or_disjoint}
use picon.Ids.{module_function, get_module, get_function}

module_function-sum : (m f : ℕ) → m < 2 ^ 16 → f < 2 ^ 32 → module_function m f ≡ m * 2 ^ 32 + f
unfolding module_function
module_function-sum m f hm hf =
    let small : m * 2 ^ 32 % 2 ^ 64 ≡ m * 2 ^ 32 = omega arith in
    let low : f % 2 ^ 32 ≡ f = omega arith in rw (small, and_mask 32 f, low) (or_disjoint 32 m f hf)

-- A module id of 16 bits and a function id of 32 bits are both read back from the word that packs
-- them.
pub packing_roundtrip :
    (m f : ℕ)
    → m < 2 ^ 16
    → f < 2 ^ 32
    → (get_module (module_function m f) ≡ m) × (get_function (module_function m f) ≡ f)
unfolding get_module get_function
packing_roundtrip m f hm hf =
    rw (module_function-sum m f hm hf, and_mask 32 (m * 2 ^ 32 + f)) (omega arith)
