-- ===== src/Program.antt =====
-- What the parts do together: a program whose modules the pass of llvm_pass/CFI has compiled, the
-- tables that are loaded of it, and the signals that it sends while it runs. The machine that runs
-- the code is not part of the repository: a run goes through the blocks and the calls that the code
-- has, and sends the signal of each call that the pass has put in (include/picon/injected_code.c).
pub mod Blocks
pub mod Calls
pub mod Edges
pub mod Walks
pub mod Allowed
pub mod Compiled
mod Sample
mod Tests
use picon.Base.{
  ℕ, zero, suc, ◌<◌, ◌≡◌, ◌+◌, ◌↔◌, length, Bool, true, false, List, [], ◌∷◌, ◌++◌, Option, none,
  some, get_elem?,
}
use picon.Signal.{Signal}
use picon.Tables.{ModuleData, FunctionData, MonitorData, at}
use picon.Load.Rows.{Entry, occurs, listed}
use picon.Injected.{Event, cfi_call}
use picon.Injected.Follows.{signal_of}
use picon.Run.Spec.{HasEdge, Frame, Target}
use picon.Pass.{
  Name, Instruction, Block, CfiFct, Cfi, is_ignored_function, is_ignored_blocks_function,
  get_identifier,
}
use picon.Pass.Files.{write_callgraph, write_allowed_bb_trans}
use picon.Pass.Inject.{Code, kept, inserted, InjectedBlock, inject_call, inject_code}
use picon.Pass.Numbered.{AreMapped}
use picon.Pass.Jumps.{jumps_listed}

-- The code of a module: its functions, by their ids.
abbrev pub ModuleCode : Type 0
ModuleCode = List (ℕ × List InjectedBlock)

-- A program: the code of its modules, and the instrumented function, by its module and its id, that
-- an instruction of a module calls, if it does. The latter is what the linker and the loader of the
-- system make of the name.
pub record Program : Type 0 where
  pub code_of : ℕ → Option ModuleCode
  pub callee : ℕ → Instruction → Option (ℕ × ℕ)

-- Signals that are sent by one thing, then by another.
abbrev pub Then : (List Signal → Type 0) → (List Signal → Type 0) → List Signal → Type 0
Then First Rest sent =
    (own : List Signal) × (rest : List Signal) × (sent ≡ own ++ rest) × First own × Rest rest

module _ (prog : Program) where
  -- The signals that some code of the module `m` sends, given those that calls of functions send.
  abbrev pub RunsCode : (ℕ → ℕ → List Signal → Type 0) → ℕ → List Code → List Signal → Type 0
  RunsCode CallSends m [] sent = sent ≡ []
  RunsCode CallSends m (inserted e ∷ code) sent =
      (rest : List Signal) × (sent ≡ signal_of m e ∷ rest) × RunsCode CallSends m code rest
  RunsCode CallSends m (kept i ∷ code) sent = elim (prog.callee m i) [
    | none ↦ RunsCode CallSends m code sent
    | some (m', f) ↦ Then (CallSends m' f) (RunsCode CallSends m code) sent
  ]

  -- Those that a walk through blocks sends: each block goes to the next, and the last one to none.
  abbrev pub RunsBlocks :
      (ℕ → ℕ → List Signal → Type 0) → ℕ → List InjectedBlock → ℕ → List ℕ → List Signal → Type 0
  RunsBlocks CallSends m blocks k [] sent =
      (b : InjectedBlock) × (get_elem? blocks k ≡ some b)
      × (b.successors ≡ [])
      × RunsCode CallSends m b.code sent
  RunsBlocks CallSends m blocks k (k' ∷ walk) sent =
      (b : InjectedBlock) × (get_elem? blocks k ≡ some b)
      × (occurs k' b.successors ≡ true)
      × Then (RunsCode CallSends m b.code) (RunsBlocks CallSends m blocks k' walk) sent

  -- Those that a call of the function `f` of the module `m` sends, where calls nest less than
  -- `depth` deep: it walks through its blocks from the first one on.
  abbrev pub CallSends : ℕ → ℕ → ℕ → List Signal → Type 0
  CallSends zero m f sent = ⊥
  CallSends (suc depth) m f sent =
      (code : ModuleCode) × (place : ℕ) × (blocks : List InjectedBlock) × (walk : List ℕ)
      × (prog.code_of m ≡ some code)
      × (get_elem? code place ≡ some (f, blocks))
      × RunsBlocks (CallSends depth) m blocks 0 walk sent

-- The shape of a function that the pass is meant for: no block goes back to the first one, and the
-- last block, and no other, has no successors.
pub record IsShaped (blocks : List Block) : Type 0 where
  pub ends_last :
      (k : ℕ) (b : Block)
      → get_elem? blocks k ≡ some b
      → (b.successors ≡ []) ↔ (k + 1 ≡ length blocks)
  pub first_unreached :
      (k : ℕ) (b : Block) → get_elem? blocks k ≡ some b → occurs 0 b.successors ≡ false

-- The functions of the map that have that shape and are not ignored, nor are their blocks.
abbrev pub AreFollowed : Cfi → List CfiFct → Type 0
AreFollowed cfi [] = Unit {0}
AreFollowed cfi (c ∷ cs) =
    (is_ignored_function cfi c.fun.name ≡ false)
    × (is_ignored_blocks_function cfi c.fun.name ≡ false)
    × IsShaped c.fun.blocks
    × AreFollowed cfi cs

-- The module `m` is compiled by the pass at the level of basic blocks: its code, the tables that
-- the pass writes and the monitor loads (prelink/picon-prelink puts them into the module), and
-- the functions that the linker finds.
pub record IsBuilt (prog : Program) (p : MonitorData) (m : ℕ) (code : ModuleCode) : Type 0 where
  pub cfi : Cfi
  pub is_mapped : AreMapped cfi.identified_functions cfi.function_map
  pub is_followed : AreFollowed cfi cfi.function_map
  pub injected : inject_code cfi true cfi.function_map ≡ some code
  pub callgraph : List Entry
  pub written : write_callgraph cfi ≡ some callgraph
  pub mdata : ModuleData
  pub found : at p.modules m ≡ some mdata
  pub calls_loaded :
      (i j : ℕ)
      → listed callgraph i j ≡ true
      → (j < mdata.nb_functions) × HasEdge mdata.call_graph i j
  pub jumps_loaded :
      (i n k j : ℕ)
      → jumps_listed (write_allowed_bb_trans cfi cfi.function_map) i n k j ≡ true
      → (fd : FunctionData) × (at mdata.functions i ≡ some fd)
        × (j < fd.nb_blocks)
        × HasEdge fd.control_flow_graph k j
  pub unlinked :
      (i : Instruction) → inject_call cfi i ≡ some (kept i ∷ [], none) → prog.callee m i ≡ none
  pub linked :
      (i : Instruction) (id : ℕ)
      → inject_call cfi i ≡ some (inserted (cfi_call id) ∷ kept i ∷ [], some id)
      → (m' : ℕ) × (f : ℕ) × (prog.callee m i ≡ some (m', f))
        × Target p m id (record { module_id = m'; function_id = f; block_id = 0 })

-- Every module of the program is.
pub record AreBuilt (prog : Program) (p : MonitorData) : Type 0 where
  pub built : (m : ℕ) (code : ModuleCode) → prog.code_of m ≡ some code → IsBuilt prog p m code
