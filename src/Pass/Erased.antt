-- ===== src/Pass/Erased.antt =====
-- llvm_pass/CFI/CFIInjector.cpp: the code of a function without what is put in.
use picon.Base.{
  ℕ, ◌+◌, ◌≡◌, refl, ◌∙◌, ap, Bool, true, false, not, ◌&&◌, ◌==◌, List, [], ◌∷◌, ◌++◌, Option, none,
  some, Option-cases, Bool-cases, inl, inr, arith,
}
use picon.Injected.{Event, cfi_exit, cfi_before_br}
use picon.Pass.{
  Instruction, invoke, inline_asm, indirect_call, other, direct_call, Block, CfiFct, Cfi,
  is_declaration, is_ignored_blocks_function, get_identifier,
}
use picon.Pass.Inject.{
  Code, kept, inserted, InjectedBlock, flush, inject_call, inject_instructions, inject_mcall,
  inject_bb_enter, inject_bb_leave, inject_mentry, inject_mexit, inject_blocks, inject_function,
}

-- The instructions that were there before.
abbrev pub erased : List Code → List Instruction
erased [] = []
erased (kept i ∷ code) = i ∷ erased code
erased (inserted e ∷ code) = erased code

abbrev pub erased_block : InjectedBlock → Block
erased_block b = record { phis = b.phis; body = erased b.code; successors = b.successors }

abbrev pub erased_blocks : List InjectedBlock → List Block
erased_blocks [] = []
erased_blocks (b ∷ bs) = erased_block b ∷ erased_blocks bs

erased-flush : (after : Option ℕ) (code : List Code) → erased (flush after ++ code) ≡ erased code
erased-flush none code = refl
erased-flush (some id) code = refl

erased-append : (code : List Code) (e : Event) → erased (code ++ inserted e ∷ []) ≡ erased code
erased-append [] e = refl
erased-append (kept i ∷ code) e = ap (λ is. i ∷ is) (erased-append code e)
erased-append (inserted x ∷ code) e = erased-append code e

-- An instruction with its call, before some code.
erased-inject_call :
    (cfi : Cfi) (i : Instruction) (code rest : List Code) (after : Option ℕ)
    → inject_call cfi i ≡ some (code, after)
    → erased (code ++ rest) ≡ i ∷ erased rest
unfolding inject_call
erased-inject_call cfi invoke code rest after h = absurd (ground arith)
erased-inject_call cfi indirect_call code rest after h = absurd (ground arith)
erased-inject_call cfi inline_asm code rest after h = ground arith
erased-inject_call cfi other code rest after h = ground arith
erased-inject_call cfi (direct_call callee true) code rest after h = ground arith
erased-inject_call cfi (direct_call callee false) code rest after h = ground arith

erased-inject_instructions :
    (cfi : Cfi) (is : List Instruction) (after : Option ℕ) (code : List Code)
    → inject_instructions cfi is after ≡ some code
    → erased code ≡ is
unfolding inject_instructions
erased-inject_instructions cfi [] none code h = ground arith
erased-inject_instructions cfi [] (some id) code h = ground arith
erased-inject_instructions cfi (i ∷ is) after code h = elim (Option-cases (inject_call cfi i)) [
  | inl n ↦ absurd (ground arith)
  | inr ((own, after'), first) ↦ elim (Option-cases (inject_instructions cfi is after')) [
    | inl n ↦ absurd (ground arith)
    | inr (rest, others) ↦
        let same : code ≡ flush after ++ (own ++ rest) = ground arith in
        ap erased same
        ∙ (erased-flush after (own ++ rest)
            ∙ (erased-inject_call cfi i own rest after' first
                ∙ ap (λ l. i ∷ l) (erased-inject_instructions cfi is after' rest others)))
  ]
]

erased_blocks-inject_mcall :
    (cfi : Cfi) (bs : List Block) (code : List InjectedBlock)
    → inject_mcall cfi bs ≡ some code
    → erased_blocks code ≡ bs
unfolding inject_mcall
erased_blocks-inject_mcall cfi [] code h = ground arith
erased_blocks-inject_mcall cfi (b ∷ bs) code h =
    elim (Option-cases (inject_instructions cfi b.body none)) [
      | inl n ↦ absurd (ground arith)
      | inr (own, first) ↦ elim (Option-cases (inject_mcall cfi bs)) [
        | inl n ↦ absurd (ground arith)
        | inr (rest, others) ↦
            let whole : InjectedBlock = record {
              phis = b.phis;
              code = own;
              successors = b.successors;
            } in
            let same : code ≡ whole ∷ rest = ground arith in
            rw (
              same,
              erased-inject_instructions cfi b.body none own first,
              erased_blocks-inject_mcall cfi bs rest others,
            )
      ]
    ]

erased_blocks-inject_bb_enter :
    (f k : ℕ) (bs : List InjectedBlock) → erased_blocks (inject_bb_enter f k bs) ≡ erased_blocks bs
unfolding inject_bb_enter
erased_blocks-inject_bb_enter f k [] = refl
erased_blocks-inject_bb_enter f k (b ∷ bs) = elim (Bool-cases (k == 0)) [
  | inl z ↦ rw (z, erased_blocks-inject_bb_enter f (k + 1) bs)
  | inr z ↦ rw (z, erased_blocks-inject_bb_enter f (k + 1) bs)
]

erased_blocks-inject_bb_leave :
    (f k : ℕ) (bs : List InjectedBlock) → erased_blocks (inject_bb_leave f k bs) ≡ erased_blocks bs
unfolding inject_bb_leave
erased_blocks-inject_bb_leave f k [] = refl
erased_blocks-inject_bb_leave f k (b ∷ []) = refl
erased_blocks-inject_bb_leave f k (b ∷ c ∷ bs) =
    rw
      (erased-append (b.code) (cfi_before_br f k), erased_blocks-inject_bb_leave f (k + 1) (c ∷ bs))

erased_blocks-inject_mentry :
    (id : ℕ) (bs : List InjectedBlock) → erased_blocks (inject_mentry id bs) ≡ erased_blocks bs
unfolding inject_mentry
erased_blocks-inject_mentry id [] = refl
erased_blocks-inject_mentry id (b ∷ bs) = refl

erased_blocks-inject_mexit :
    (id : ℕ) (bs : List InjectedBlock) → erased_blocks (inject_mexit id bs) ≡ erased_blocks bs
unfolding inject_mexit
erased_blocks-inject_mexit id [] = refl
erased_blocks-inject_mexit id (b ∷ []) = rw (erased-append b.code (cfi_exit id))
erased_blocks-inject_mexit id (b ∷ c ∷ bs) =
    ap (λ l. erased_block b ∷ l) (erased_blocks-inject_mexit id (c ∷ bs))

erased_blocks-inject_blocks :
    (cfi : Cfi) (basic_block : Bool) (c : CfiFct) (bs code : List InjectedBlock)
    → inject_blocks cfi basic_block c.fun bs ≡ some code
    → erased_blocks code ≡ erased_blocks bs
unfolding inject_blocks
erased_blocks-inject_blocks cfi basic_block c bs code h =
    elim (Bool-cases (basic_block && not (is_ignored_blocks_function cfi c.fun.name))) [
      | inr off ↦ ap erased_blocks (ground arith)
      | inl on ↦ elim (Option-cases (get_identifier cfi c.fun.name)) [
        | inl n ↦ absurd (ground arith)
        | inr (id, i) ↦
            let same : code ≡ inject_bb_leave id 0 (inject_bb_enter id 0 bs) = ground arith in
            ap erased_blocks same
            ∙ (erased_blocks-inject_bb_leave id 0 (inject_bb_enter id 0 bs)
                ∙ erased_blocks-inject_bb_enter id 0 bs)
      ]
    ]

-- The code of a function that the pass returns is the code it was given, with calls put in: without
-- them, each block has the PHI nodes, the instructions in their order, and the successors it had.
pub erased_blocks-inject_function :
    (cfi : Cfi) (basic_block : Bool) (c : CfiFct) (code : List InjectedBlock)
    → inject_function cfi basic_block c ≡ some code
    → erased_blocks code ≡ c.fun.blocks
unfolding inject_function
erased_blocks-inject_function cfi basic_block c code h =
    elim (Option-cases (inject_mcall cfi c.fun.blocks)) [
      | inl n ↦ absurd (ground arith)
      | inr (bs, q) ↦
          let own = erased_blocks-inject_mcall cfi c.fun.blocks bs q in
          elim (Bool-cases (is_declaration c.fun)) [
            | inl d ↦ ap erased_blocks (ground arith) ∙ own
            | inr d ↦ elim (Option-cases (inject_blocks cfi basic_block c.fun bs)) [
              | inl n ↦ absurd (ground arith)
              | inr (bs', q') ↦
                  let same : code ≡ inject_mexit c.id (inject_mentry c.id bs') = ground arith in
                  ap erased_blocks same
                  ∙ (erased_blocks-inject_mexit c.id (inject_mentry c.id bs')
                      ∙ (erased_blocks-inject_mentry c.id bs'
                          ∙ (erased_blocks-inject_blocks cfi basic_block c bs bs' q' ∙ own)))
            ]
          ]
    ]
