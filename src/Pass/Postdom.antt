-- ===== src/Pass/Postdom.antt =====
-- llvm_pass/CFI/CFI.cpp, `writeIPDOMToFile`. The post-dominator tree of a function is LLVM's:
-- `findNearestCommonDominator` is an argument, which names blocks by their places.
use picon.Base.{ℕ, ◌+◌, ◌-◌, Bool, true, false, List, [], ◌∷◌, ◌++◌, length, Option, none, some}
use picon.Pass.{Name, Instruction, invoke, Block, Function, CfiFct, Cfi, get_identifier}
use picon.Pass.Files.{skips_blocks}

-- A line: the function, the block, its immediate post-dominator, and the last block of the
-- function.
pub record IpdLine : Type 0 where
  pub fct_id : ℕ
  pub block_id : ℕ
  pub ipd : ℕ
  pub last_block : ℕ

-- The terminator is the last instruction; an invocation is one.
abbrev pub ends_in_invoke : List Instruction → Bool
ends_in_invoke [] = false
ends_in_invoke (invoke ∷ []) = true
ends_in_invoke (i ∷ []) = false
ends_in_invoke (i ∷ j ∷ is) = ends_in_invoke (j ∷ is)

module _ (nearest : ℕ → ℕ → Option ℕ) where
  -- The loop over the successors after the first one, with `posdom` before it.
  unfoldable pub common : ℕ → List ℕ → Option ℕ
  common posdom [] = some posdom
  common posdom (s ∷ ss) = elim (nearest posdom s) [ none ↦ none | some d ↦ common d ss ]

  -- `posdom` of a block with these successors.
  unfoldable pub post_dominator : List ℕ → Option ℕ
  post_dominator [] = none
  post_dominator (s ∷ ss) = common s ss

  -- The loop over the blocks, from the one with the id `k` on; NULL is written as 0.
  unfoldable pub write_ipds : Cfi → Function → ℕ → List Block → Option (List IpdLine)
  write_ipds cfi f k [] = some []
  write_ipds cfi f k (b ∷ bs) = elim (ends_in_invoke b.body) [
    | true ↦ none
    | false ↦ elim (get_identifier cfi f.name) [
      | none ↦ none
      | some id ↦ elim (write_ipds cfi f (k + 1) bs) [
        | none ↦ none
        | some rest ↦ some (
            record {
              fct_id = id;
              block_id = k;
              ipd = elim (post_dominator b.successors) [ none ↦ 0 | some d ↦ d ];
              last_block = length f.blocks - 1;
            }
            ∷ rest)
      ]
    ]
  ]

-- `writeIPDOMToFile`, given the trees of the functions
unfoldable pub write_ipdom_to_file :
    (Name → ℕ → ℕ → Option ℕ) → Cfi → List CfiFct → Option (List IpdLine)
write_ipdom_to_file trees cfi [] = some []
write_ipdom_to_file trees cfi (c ∷ cs) = elim (skips_blocks cfi c.fun) [
  | true ↦ write_ipdom_to_file trees cfi cs
  | false ↦ elim (write_ipds (trees c.fun.name) cfi c.fun 0 c.fun.blocks) [
    | none ↦ none
    | some lines ↦ elim (write_ipdom_to_file trees cfi cs) [
      | none ↦ none
      | some rest ↦ some (lines ++ rest)
    ]
  ]
]
