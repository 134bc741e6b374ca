-- ===== src/Pass/Inject.antt =====
-- llvm_pass/CFI/CFIInjector.cpp: the calls that are put into the code of a function. Such a call
-- is the event that it is at run time (Injected). Where a block starts with debug intrinsics,
-- what is put first in the block stands before them here; they do nothing at run time.
use picon.Base.{ℕ, ◌+◌, Bool, true, false, not, ◌&&◌, ◌==◌, List, [], ◌∷◌, ◌++◌, Option, none, some}
use picon.Injected.{Event, cfi_enter, cfi_exit, cfi_call, cfi_returned, cfi_before_br, cfi_after_br}
use picon.Pass.{
  Instruction, invoke, inline_asm, indirect_call, other, direct_call, Block, Function,
  is_declaration, CfiFct, Cfi, is_ignored_function, is_ignored_blocks_function, get_identifier,
}

-- An instruction of the function, or a call that is put in.
pub data Code : Type 0 where
  kept : Instruction → Code
  inserted : Event → Code

-- A block with what is put between its PHI nodes and its terminator.
pub record InjectedBlock : Type 0 where
  pub phis : List Instruction
  pub code : List Code
  pub successors : List ℕ

-- `insertAfter` and the identifier of `NF`: the call of __CFI_INTERNAL_RETURNED that is still to be
-- put before the next instruction.
abbrev pub flush : Option ℕ → List Code
flush none = []
flush (some id) = inserted (cfi_returned id) ∷ []

-- The body of the loop of `injectMcall`, for one instruction.
unfoldable pub inject_call : Cfi → Instruction → Option (List Code × Option ℕ)
inject_call cfi invoke = none
inject_call cfi indirect_call = none
inject_call cfi inline_asm = some (kept inline_asm ∷ [], none)
inject_call cfi other = some (kept other ∷ [], none)
inject_call cfi (direct_call callee true) = some (kept (direct_call callee true) ∷ [], none)
inject_call cfi (direct_call callee false) = elim (is_ignored_function cfi callee) [
  | true ↦ some (kept (direct_call callee false) ∷ [], none)
  | false ↦ elim (get_identifier cfi callee) [
    | none ↦ none
    | some id ↦ some (inserted (cfi_call id) ∷ kept (direct_call callee false) ∷ [], some id)
  ]
]

-- The loop over the instructions, before which `after` is to be put.
unfoldable pub inject_instructions : Cfi → List Instruction → Option ℕ → Option (List Code)
inject_instructions cfi [] after = some (flush after)
inject_instructions cfi (i ∷ is) after = elim (inject_call cfi i) [
  | none ↦ none
  | some (code, after') ↦ elim (inject_instructions cfi is after') [
    | none ↦ none
    | some rest ↦ some (flush after ++ (code ++ rest))
  ]
]

-- `injectMcall`, over the blocks of a function that is not ignored. A block ends with a terminator,
-- before which what is left of the last call is put.
unfoldable pub inject_mcall : Cfi → List Block → Option (List InjectedBlock)
inject_mcall cfi [] = some []
inject_mcall cfi (b ∷ bs) = elim (inject_instructions cfi b.body none) [
  | none ↦ none
  | some code ↦ elim (inject_mcall cfi bs) [
    | none ↦ none
    | some rest ↦ some (record { phis = b.phis; code = code; successors = b.successors } ∷ rest)
  ]
]

abbrev pub prepend : Event → InjectedBlock → InjectedBlock
prepend e b = record b { code = inserted e ∷ b.code }

abbrev pub append : Event → InjectedBlock → InjectedBlock
append e b = record b { code = b.code ++ inserted e ∷ [] }

-- `injectBBEnter`, from the block with the id `k` on: all but the first one, 0.
unfoldable pub inject_bb_enter : ℕ → ℕ → List InjectedBlock → List InjectedBlock
inject_bb_enter f k [] = []
inject_bb_enter f k (b ∷ bs) =
    (elim (k == 0) [ true ↦ b | false ↦ prepend (cfi_after_br f k) b ])
    ∷ inject_bb_enter f (k + 1) bs

-- `injectBBLeave`, from the block with the id `k` on: all but the last one.
unfoldable pub inject_bb_leave : ℕ → ℕ → List InjectedBlock → List InjectedBlock
inject_bb_leave f k [] = []
inject_bb_leave f k (b ∷ []) = b ∷ []
inject_bb_leave f k (b ∷ c ∷ bs) = append (cfi_before_br f k) b ∷ inject_bb_leave f (k + 1) (c ∷ bs)

-- `injectMentry`
unfoldable pub inject_mentry : ℕ → List InjectedBlock → List InjectedBlock
inject_mentry id [] = []
inject_mentry id (b ∷ bs) = prepend (cfi_enter id) b ∷ bs

-- `injectMexit`: before the terminator of the last block.
unfoldable pub inject_mexit : ℕ → List InjectedBlock → List InjectedBlock
inject_mexit id [] = []
inject_mexit id (b ∷ []) = append (cfi_exit id) b ∷ []
inject_mexit id (b ∷ c ∷ bs) = b ∷ inject_mexit id (c ∷ bs)

-- `injectBBEnter` and `injectBBLeave`, at the level of basic blocks.
unfoldable pub inject_blocks :
    Cfi → Bool → Function → List InjectedBlock → Option (List InjectedBlock)
inject_blocks cfi basic_block f bs =
    elim (basic_block && not (is_ignored_blocks_function cfi f.name)) [
      | false ↦ some bs
      | true ↦ elim (get_identifier cfi f.name) [
        | none ↦ none
        | some id ↦ some (inject_bb_leave id 0 (inject_bb_enter id 0 bs))
      ]
    ]

-- `InjectCode`, for one function of the map, none of which is ignored; a declaration has no blocks.
unfoldable pub inject_function : Cfi → Bool → CfiFct → Option (List InjectedBlock)
inject_function cfi basic_block c = elim (inject_mcall cfi c.fun.blocks) [
  | none ↦ none
  | some bs ↦ elim (is_declaration c.fun) [
    | true ↦ some bs
    | false ↦ elim (inject_blocks cfi basic_block c.fun bs) [
      | none ↦ none
      | some bs' ↦ some (inject_mexit c.id (inject_mentry c.id bs'))
    ]
  ]
]

-- The loop of `InjectCode`: each function of the map, with its id.
unfoldable pub inject_code : Cfi → Bool → List CfiFct → Option (List (ℕ × List InjectedBlock))
inject_code cfi basic_block [] = some []
inject_code cfi basic_block (c ∷ cs) = elim (inject_function cfi basic_block c) [
  | none ↦ none
  | some bs ↦ elim (inject_code cfi basic_block cs) [
    | none ↦ none
    | some rest ↦ some ((c.id, bs) ∷ rest)
  ]
]
