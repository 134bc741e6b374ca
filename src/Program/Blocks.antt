-- ===== src/Program/Blocks.antt =====
-- The code of a block of a program, from that of its function.
use picon.Base.{
  ℕ, zero, suc, ◌≡◌, refl, ap, true, false, List, [], ◌∷◌, ◌++◌, none, some, Option-cases, inl, inr,
  arith, length, get_elem?,
}
use picon.Pass.{Name, Block, CfiFct, Cfi, lookup, is_ignored_function, is_ignored_blocks_function}
use picon.Pass.Inject.{
  Code, inserted, InjectedBlock, inject_instructions, inject_function, inject_code,
}
use picon.Pass.Erased.{erased_block, erased_blocks, erased_blocks-inject_function}
use picon.Pass.Layout.{first_event, last_event, inject_function-placed}
use picon.Pass.Numbered.{AreMapped}
use picon.Program.{ModuleCode, IsShaped, AreFollowed}

-- The code of some functions starts with that of the first one.
inject_code_parts :
    (cfi : Cfi) (c : CfiFct) (cs : List CfiFct) (code : ModuleCode)
    → inject_code cfi true (c ∷ cs) ≡ some code
    → (own : List InjectedBlock) × (rest : ModuleCode) × (inject_function cfi true c ≡ some own)
      × (inject_code cfi true cs ≡ some rest)
      × (code ≡ (c.id, own) ∷ rest)
unfolding inject_code
inject_code_parts cfi c cs code h = elim (Option-cases (inject_function cfi true c)) [
  | inl n ↦ absurd (ground arith)
  | inr (own, first) ↦ elim (Option-cases (inject_code cfi true cs)) [
    | inl n ↦ absurd (ground arith)
    | inr (rest, others) ↦ (own, rest, first, others, ground arith)
  ]
]

-- The function that has some code.
pub inject_code_at :
    (cfi : Cfi) (cs : List CfiFct) (code : ModuleCode) (place f : ℕ) (blocks : List InjectedBlock)
    → inject_code cfi true cs ≡ some code
    → get_elem? code place ≡ some (f, blocks)
    → (c : CfiFct) × (get_elem? cs place ≡ some c)
      × (c.id ≡ f)
      × (inject_function cfi true c ≡ some blocks)
unfolding inject_code
inject_code_at cfi [] code place f blocks h q =
    let empty : code ≡ [] = ground arith in absurd (ground arith)
inject_code_at cfi (c ∷ cs) code zero f blocks h q =
    let (own, rest, first, others, same) = inject_code_parts cfi c cs code h in
    let here : some (c.id, own) ≡ some (f, blocks) = rw same at q in
    let owned : own ≡ blocks = ground arith in (c, refl, ground arith, rw owned at first)
inject_code_at cfi (c ∷ cs) code (suc place) f blocks h q =
    let (own, rest, first, others, same) = inject_code_parts cfi c cs code h in
    inject_code_at cfi cs rest place f blocks others (rw same at q)

erased_blocks_at :
    (bs : List InjectedBlock) (k : ℕ) (b : InjectedBlock)
    → get_elem? bs k ≡ some b
    → get_elem? (erased_blocks bs) k ≡ some (erased_block b)
erased_blocks_at [] k b h = absurd (ground arith)
erased_blocks_at (x ∷ xs) zero b h = let here : x ≡ b = ground arith in rw here refl
erased_blocks_at (x ∷ xs) (suc k) b h = erased_blocks_at xs k b h

pub length-erased_blocks : (bs : List InjectedBlock) → length (erased_blocks bs) ≡ length bs
length-erased_blocks [] = refl
length-erased_blocks (b ∷ bs) = ap suc (length-erased_blocks bs)

pub AreFollowed-at :
    (cfi : Cfi) (cs : List CfiFct) (place : ℕ) (c : CfiFct)
    → AreFollowed cfi cs
    → get_elem? cs place ≡ some c
    → (is_ignored_function cfi c.fun.name ≡ false)
      × (is_ignored_blocks_function cfi c.fun.name ≡ false)
      × IsShaped c.fun.blocks
AreFollowed-at cfi [] place c h q = absurd (ground arith)
AreFollowed-at cfi (x ∷ xs) zero c h q =
    let here : x ≡ c = ground arith in
    let own : (is_ignored_function cfi x.fun.name ≡ false)
        × (is_ignored_blocks_function cfi x.fun.name ≡ false)
        × IsShaped x.fun.blocks =
      (h.0, h.1, h.2) in
    rw here at own
AreFollowed-at cfi (x ∷ xs) (suc place) c h q = AreFollowed-at cfi xs place c h.3 q

pub AreMapped-at :
    (l : List (Name × ℕ)) (cs : List CfiFct) (place : ℕ) (c : CfiFct)
    → AreMapped l cs
    → get_elem? cs place ≡ some c
    → lookup c.fun.name l ≡ some c.id
AreMapped-at l [] place c h q = absurd (ground arith)
AreMapped-at l (x ∷ xs) zero c h q = let here : x ≡ c = ground arith in rw here at h.0
AreMapped-at l (x ∷ xs) (suc place) c h q = AreMapped-at l xs place c h.1 q

-- A block of the code of a function: that of the function in the source, with the calls of
-- `injectMcall` between the two calls of the block.
pub block_code :
    (cfi : Cfi) (c : CfiFct) (blocks : List InjectedBlock) (k : ℕ) (b : InjectedBlock)
    → is_ignored_blocks_function cfi c.fun.name ≡ false
    → lookup c.fun.name cfi.identified_functions ≡ some c.id
    → inject_function cfi true c ≡ some blocks
    → get_elem? blocks k ≡ some b
    → (src : Block) × (mid : List Code) × (get_elem? c.fun.blocks k ≡ some src)
      × (src.successors ≡ b.successors)
      × (inject_instructions cfi src.body none ≡ some mid)
      × (b.code
          ≡ inserted (first_event c.id k) ∷ mid
            ++ inserted (last_event c.id k (length c.fun.blocks)) ∷ [])
block_code cfi c blocks k b seen known h q =
    let source = erased_blocks-inject_function cfi true c blocks h in
    let there : get_elem? c.fun.blocks k ≡ some (erased_block b) =
      rw source at (erased_blocks_at blocks k b q) in
    let (mid, own, placed) =
      inject_function-placed cfi c blocks k (erased_block b) seen known h there in
    let code : b.code
        ≡ inserted (first_event c.id k) ∷ mid
          ++ inserted (last_event c.id k (length c.fun.blocks)) ∷ [] =
      ground arith in
    (erased_block b, mid, there, refl, own, code)
