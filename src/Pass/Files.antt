-- ===== src/Pass/Files.antt =====
-- llvm_pass/CFI/CFI.cpp: the tables that the pass writes.
use picon.Base.{
  ℕ, ◌+◌, Bool, true, false, ◌||◌, ◌==◌, ltb, List, [], ◌∷◌, length, Option, none, some,
}
use picon.Load.Rows.{Entry}
use picon.Pass.{
  Instruction, invoke, inline_asm, indirect_call, other, direct_call, Block, Function,
  is_declaration, CfiFct, Cfi, is_ignored_function, is_ignored_blocks_function, get_identifier,
}

-- `std::set<int>::insert`
unfoldable pub insert_id : ℕ → List ℕ → List ℕ
insert_id n [] = n ∷ []
insert_id n (x ∷ xs) = elim (n == x) [
  | true ↦ x ∷ xs
  | false ↦ elim (ltb n x) [ true ↦ n ∷ x ∷ xs | false ↦ x ∷ insert_id n xs ]
]

-- `_AllowedMapTrans[i].insert(j)`: the map is in the order of its keys.
unfoldable pub add_transition : ℕ → ℕ → List Entry → List Entry
add_transition i j [] = record { source = i; targets = j ∷ [] } ∷ []
add_transition i j (e ∷ es) = elim (i == e.source) [
  | true ↦ record { source = e.source; targets = insert_id j e.targets } ∷ es
  | false ↦ elim (ltb i e.source) [
    | true ↦ record { source = i; targets = j ∷ [] } ∷ e ∷ es
    | false ↦ e ∷ add_transition i j es
  ]
]

-- The loop of `writeCallgraph` over the instructions of a block, of the function with the id `i`. A
-- callee with no id is skipped with a message.
unfoldable pub collect_calls : Cfi → ℕ → List Instruction → List Entry → Option (List Entry)
collect_calls cfi i [] allowed = some allowed
collect_calls cfi i (invoke ∷ is) allowed = none
collect_calls cfi i (indirect_call ∷ is) allowed = none
collect_calls cfi i (inline_asm ∷ is) allowed = collect_calls cfi i is allowed
collect_calls cfi i (other ∷ is) allowed = collect_calls cfi i is allowed
collect_calls cfi i (direct_call callee intrinsic ∷ is) allowed =
    elim (is_ignored_function cfi callee || intrinsic) [
      | true ↦ collect_calls cfi i is allowed
      | false ↦ elim (get_identifier cfi callee) [
        | none ↦ collect_calls cfi i is allowed
        | some j ↦ collect_calls cfi i is (add_transition i j allowed)
      ]
    ]

-- The loop over the blocks.
unfoldable pub collect_block_calls : Cfi → ℕ → List Block → List Entry → Option (List Entry)
collect_block_calls cfi i [] allowed = some allowed
collect_block_calls cfi i (b ∷ bs) allowed = elim (collect_calls cfi i b.body allowed) [
  | none ↦ none
  | some allowed' ↦ collect_block_calls cfi i bs allowed'
]

-- The loop over the functions; a declaration has no blocks.
unfoldable pub collect_functions : Cfi → List CfiFct → List Entry → Option (List Entry)
collect_functions cfi [] allowed = some allowed
collect_functions cfi (c ∷ cs) allowed = elim (collect_block_calls cfi c.id c.fun.blocks allowed) [
  | none ↦ none
  | some allowed' ↦ collect_functions cfi cs allowed'
]

-- `writeCallgraph`: the lines that are appended to the file
unfoldable pub write_callgraph : Cfi → Option (List Entry)
write_callgraph cfi = collect_functions cfi cfi.function_map []

-- The lines of the blocks from the one with the id `k` on, in `writeAllowedBBTrans`.
unfoldable pub write_blocks : ℕ → List Block → List Entry
write_blocks k [] = []
write_blocks k (b ∷ bs) = elim b.successors [
  | [] ↦ write_blocks (k + 1) bs
  | s ∷ ss ↦ record { source = k; targets = b.successors } ∷ write_blocks (k + 1) bs
]

-- What `writeAllowedBBTrans` writes of a function: its id, the number of its blocks, and the lines.
pub record FunctionBlocks : Type 0 where
  pub fct_id : ℕ
  pub num_bb : ℕ
  pub transitions : List Entry

abbrev pub skips_blocks : Cfi → Function → Bool
skips_blocks cfi f =
    is_ignored_function cfi f.name || is_ignored_blocks_function cfi f.name || is_declaration f

-- `writeAllowedBBTrans`
unfoldable pub write_allowed_bb_trans : Cfi → List CfiFct → List FunctionBlocks
write_allowed_bb_trans cfi [] = []
write_allowed_bb_trans cfi (c ∷ cs) = elim (skips_blocks cfi c.fun) [
  | true ↦ write_allowed_bb_trans cfi cs
  | false ↦
      record {
        fct_id = c.id;
        num_bb = length c.fun.blocks;
        transitions = elim (length c.fun.blocks == 1) [
          | true ↦ []
          | false ↦ write_blocks 0 c.fun.blocks
        ];
      }
      ∷ write_allowed_bb_trans cfi cs
]
