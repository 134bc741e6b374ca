-- ===== src/Pass/Layout.antt =====
-- llvm_pass/CFI/CFIInjector.cpp, `InjectCode`: where the calls stand in a block.
use picon.Base.{
  ℕ, ◌+◌, ◌≡◌, refl, ◌∙◌, sym, ap, Bool, true, false, ◌==◌, List, [], ◌∷◌, ◌++◌, none, some,
  Option-cases, inl, inr, arith, length, get_elem?, if◌then◌else◌,
}
use picon.Injected.{Event, cfi_enter, cfi_exit, cfi_before_br, cfi_after_br}
use picon.Pass.{Block, CfiFct, Cfi, is_declaration, is_ignored_blocks_function, get_identifier}
use picon.Pass.Inject.{
  Code, inserted, InjectedBlock, inject_instructions, inject_mcall, prepend, append,
  inject_bb_enter, inject_bb_leave, inject_mentry, inject_mexit, inject_blocks, inject_function,
}
use picon.Pass.Places.{
  with_calls, inject_mcall_at, length-inject_mcall, inject_bb_enter_at, inject_bb_leave_at,
  length-inject_bb_enter, length-inject_bb_leave, length-inject_mentry, inject_mentry_at,
  inject_mexit_at,
}

-- The call at the start of the block `k` of a function, and the one at its end.
abbrev pub first_event : ℕ → ℕ → Event
first_event f k = if k == 0 then cfi_enter f else cfi_after_br f k

abbrev pub last_event : ℕ → ℕ → ℕ → Event
last_event f k count = if k + 1 == count then cfi_exit f else cfi_before_br f k

-- The four calls at one block, given whether it is the first and whether it is the last.
placed :
    (entry exit before after : Event) (b : InjectedBlock) (first last : Bool)
    → let b₁ = if first then b else prepend after b in
      let b₂ = if last then b₁ else append before b₁ in
      let b₃ = if first then prepend entry b₂ else b₂ in
      (if last then append exit b₃ else b₃)
      ≡ prepend (if first then entry else after) (append (if last then exit else before) b)
placed entry exit before after b true true = refl
placed entry exit before after b true false = refl
placed entry exit before after b false true = refl
placed entry exit before after b false false = refl

-- The calls for a function and its blocks, at one block.
placed_at :
    (f k : ℕ) (bs : List InjectedBlock) (b : InjectedBlock)
    → get_elem? bs k ≡ some b
    → get_elem? (inject_mexit f (inject_mentry f (inject_bb_leave f 0 (inject_bb_enter f 0 bs)))) k
      ≡ some (prepend (first_event f k) (append (last_event f k (length bs)) b))
placed_at f k bs b h =
    let entered = inject_bb_enter f 0 bs in
    let left = inject_bb_leave f 0 entered in
    let count : length (inject_mentry f left) ≡ length bs =
      length-inject_mentry f left
      ∙ (length-inject_bb_leave f 0 entered ∙ length-inject_bb_enter f 0 bs) in
    let count' : length entered ≡ length bs = length-inject_bb_enter f 0 bs in
    let same : 0 + k ≡ k = omega arith in
    let b₁ = if 0 + k == 0 then b else prepend (cfi_after_br f (0 + k)) b in
    let b₂ = if k + 1 == length entered then b₁ else append (cfi_before_br f (0 + k)) b₁ in
    let b₃ = if k == 0 then prepend (cfi_enter f) b₂ else b₂ in
    let at₁ = inject_bb_enter_at f 0 k bs b h in
    let at₂ = inject_bb_leave_at f 0 k entered b₁ at₁ in
    let at₃ = inject_mentry_at f k left b₂ at₂ in
    inject_mexit_at f k (inject_mentry f left) b₃ at₃
    ∙ rw (count, count', same)
        (ap some (
          placed (cfi_enter f) (cfi_exit f) (cfi_before_br f k) (cfi_after_br f k) b (k == 0)
            (k + 1 == length bs)))

pub not_empty :
    (bs : List Block) (k : ℕ) (b : Block)
    → get_elem? bs k ≡ some b
    → Path Bool (elim bs [ [] ↦ true | _ ↦ false ]) false
not_empty [] k b h = absurd (ground arith)
not_empty (x ∷ xs) k b h = refl

-- At the level of basic blocks, the pass puts one call at the start and one at the end of each
-- block of a function that is no declaration and whose blocks are not ignored, around what the
-- block has with the calls of `injectMcall`: the entry of the function in its first block and the
-- arrival in the block in the others, and the exit of the function in its last block and the
-- departure from the block in the others. They name the function by its id and the block by its
-- place.
pub inject_function-placed :
    (cfi : Cfi) (c : CfiFct) (code : List InjectedBlock) (k : ℕ) (b : Block)
    → is_ignored_blocks_function cfi c.fun.name ≡ false
    → get_identifier cfi c.fun.name ≡ some c.id
    → inject_function cfi true c ≡ some code
    → get_elem? c.fun.blocks k ≡ some b
    → (mid : List Code) × (inject_instructions cfi b.body none ≡ some mid)
      × (get_elem? code k
          ≡ some (record {
            phis = b.phis;
            code =
                inserted (first_event c.id k) ∷ mid
                ++ inserted (last_event c.id k (length c.fun.blocks)) ∷ [];
            successors = b.successors;
          }))
unfolding inject_function inject_blocks
inject_function-placed cfi c code k b seen known h q =
    elim (Option-cases (inject_mcall cfi c.fun.blocks)) [
      | inl n ↦ absurd (ground arith)
      | inr (bs, m) ↦
          let (mid, own, there) = inject_mcall_at cfi c.fun.blocks bs k b m q in
          let count = length-inject_mcall cfi c.fun.blocks bs m in
          let defined : is_declaration c.fun ≡ false = not_empty c.fun.blocks k b q in
          let same : code
              ≡ inject_mexit c.id
                  (inject_mentry c.id (inject_bb_leave c.id 0 (inject_bb_enter c.id 0 bs))) =
            ground arith in
          (mid, own, rw (same, sym count) (placed_at c.id k bs (with_calls b mid) there))
    ]
