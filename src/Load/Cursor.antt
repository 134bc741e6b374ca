-- ===== src/Load/Cursor.antt =====
-- include/picon/shared.h: the fields of the messages, read from and written as bytes.
use picon.Base.{
  ℕ, ◌^◌, ◌<◌, ◌≡◌, ◌≢◌, refl, List, [], ◌∷◌, ◌++◌, ◌==◌, Option, none, some, arith, true, false,
}
use picon.Signal.{le_bytes, le_value}

-- A fault, or a loader that goes on.
infixl 5 ◌>>=◌
abbrev pub ◌>>=◌ {ℓ κ} : {A : Type ℓ} {B : Type κ} → Option A → (A → Option B) → Option B
none >>= k = none
some a >>= k = k a

-- What goes on has returned.
pub >>=-some {ℓ κ} :
    {A : Type ℓ} {B : Type κ} (o : Option A) (k : A → Option B) (b : B)
    → (o >>= k) ≡ some b
    → (a : A) × (o ≡ some a) × (k a ≡ some b)
>>=-some none k b h = absurd (ground arith)
>>=-some (some a) k b h = (a, refl, h)

-- A `uint32_t` field, and what follows it.
unfoldable pub read_u32 : List ℕ → Option (ℕ × List ℕ)
read_u32 (a ∷ b ∷ c ∷ d ∷ rest) = some (le_value (a ∷ b ∷ c ∷ d ∷ []), rest)
read_u32 _ = none

-- `f_name`, up to its NUL, and what follows that.
unfoldable pub read_name : List ℕ → Option (List ℕ × List ℕ)
read_name [] = none
read_name (c ∷ rest) = elim (c == 0) [
  | true ↦ some ([], rest)
  | false ↦ elim (read_name rest) [ none ↦ none | some (name, after) ↦ some (c ∷ name, after) ]
]

-- The bytes of a `uint32_t`.
abbrev pub u32_bytes : ℕ → List ℕ
u32_bytes n = le_bytes 4 n

pub read_u32-bytes :
    (n : ℕ) (rest : List ℕ) → n < 2 ^ 32 → read_u32 (u32_bytes n ++ rest) ≡ some (n, rest)
unfolding read_u32
read_u32-bytes n rest h = let v : le_value (u32_bytes n) ≡ n = omega arith in ground (arith, v)

-- A name holds no NUL.
abbrev pub IsName : List ℕ → Type 0
IsName [] = Unit {0}
IsName (c ∷ name) = (c ≢ 0) × IsName name

pub read_name-append :
    (name rest : List ℕ) → IsName name → read_name (name ++ 0 ∷ rest) ≡ some (name, rest)
unfolding read_name
read_name-append [] rest h = refl
read_name-append (c ∷ name) rest h = ground (arith, read_name-append name rest h.1)
