-- ===== src/Program/Edges.antt =====
-- The edges of the loaded graphs that the code of a program takes.
use picon.Base.{
  ℕ, zero, suc, ◌≡◌, refl, ◌∙◌, sym, ap, not, true, false, ◌==◌, List, [], ◌∷◌, some, arith, length,
  get_elem?,
}
use picon.Tables.{MonitorData}
use picon.Load.Rows.{occurs}
use picon.Run.Spec.{CanCall, CanJump, function_at}
use picon.Pass.{Block, CfiFct, Cfi}
use picon.Pass.Inject.{InjectedBlock}
use picon.Pass.Files.{skips_blocks}
use picon.Pass.Announced.{calls_in, block_calls, program_calls}
use picon.Pass.CallsListed.{listed-write_callgraph}
use picon.Pass.Jumps.{skips_blocks-cases, goes, program_jumps, jumps_listed-write_allowed_bb_trans}
use picon.Program.{Program, ModuleCode, IsBuilt}

-- A call that a block announces is one of its program.
calls_in-block :
    (blocks : List InjectedBlock) (k j : ℕ) (b : InjectedBlock)
    → get_elem? blocks k ≡ some b
    → calls_in j b.code ≡ true
    → block_calls j blocks ≡ true
calls_in-block [] k j b h q = absurd (ground arith)
calls_in-block (x ∷ xs) zero j b h q =
    let here : calls_in j x.code ≡ calls_in j b.code = ground arith in ground arith
calls_in-block (x ∷ xs) (suc k) j b h q = ground (arith, calls_in-block xs k j b h q)

block_calls-program :
    (code : ModuleCode) (place f j : ℕ) (blocks : List InjectedBlock)
    → get_elem? code place ≡ some (f, blocks)
    → block_calls j blocks ≡ true
    → program_calls f j code ≡ true
block_calls-program [] place f j blocks h q = absurd (ground arith)
block_calls-program ((id, own) ∷ rest) zero f j blocks h q =
    let same : id ≡ f = ground arith in
    let here : own ≡ blocks = ground arith in
    let own_calls : block_calls j own ≡ true = rw here q in
    let known : (id == f) ≡ true = ground arith in rw (known, own_calls) refl
block_calls-program ((id, own) ∷ rest) (suc place) f j blocks h q =
    ground (arith, block_calls-program rest place f j blocks h q)

-- A jump of a block of a function of the map, that is followed, is one of the program.
goes-program :
    (cfi : Cfi) (cs : List CfiFct) (place k j : ℕ) (c : CfiFct)
    → get_elem? cs place ≡ some c
    → skips_blocks cfi c.fun ≡ false
    → (length c.fun.blocks == 1) ≡ false
    → goes c.fun.blocks k j ≡ true
    → program_jumps cfi cs c.id (length c.fun.blocks) k j ≡ true
goes-program cfi [] place k j c h seen many q = absurd (ground arith)
goes-program cfi (x ∷ xs) zero k j c h seen many q =
    let here : x ≡ c = ground arith in
    let id : (c.id == c.id) ≡ true = ground arith in
    let count : (length c.fun.blocks == length c.fun.blocks) ≡ true = ground arith in
    let in_file = sym (skips_blocks-cases cfi c.fun) ∙ ap not seen in
    rw (here, in_file, id, count, many, q) refl
goes-program cfi (x ∷ xs) (suc place) k j c h seen many q =
    let later = goes-program cfi xs place k j c h seen many q in ground arith

goes-at :
    (bs : List Block) (k j : ℕ) (b : Block)
    → get_elem? bs k ≡ some b
    → occurs j b.successors ≡ true
    → goes bs k j ≡ true
goes-at [] k j b h q = absurd (ground arith)
goes-at (x ∷ xs) zero j b h q = let here : x ≡ b = ground arith in rw here q
goes-at (x ∷ xs) (suc k) j b h q = goes-at xs k j b h q

module _ (prog : Program) (p : MonitorData) (m : ℕ) (code : ModuleCode)
    (built : IsBuilt prog p m code) where
  -- What a block announces is a call that the monitor allows.
  pub announced-CanCall :
      (place k j block : ℕ) (f : ℕ) (blocks : List InjectedBlock) (b : InjectedBlock)
      → get_elem? code place ≡ some (f, blocks)
      → get_elem? blocks k ≡ some b
      → calls_in j b.code ≡ true
      → CanCall p (record { module_id = m; function_id = f; block_id = block }) j
  announced-CanCall place k j block f blocks b there here q =
      let calls =
        block_calls-program code place f j blocks there (calls_in-block blocks k j b here q) in
      let edge =
        listed-write_callgraph built.cfi true built.callgraph code f j built.written built.injected
        ∙ calls in
      let (range, e) = built.calls_loaded f j edge in
      record { mdata = built.mdata; found = built.found; in_range = range; edge = e }

  -- Where a block goes, the monitor allows to jump.
  pub successor-CanJump :
      (place k j : ℕ) (c : CfiFct) (b : Block)
      → get_elem? built.cfi.function_map place ≡ some c
      → skips_blocks built.cfi c.fun ≡ false
      → (length c.fun.blocks == 1) ≡ false
      → get_elem? c.fun.blocks k ≡ some b
      → occurs j b.successors ≡ true
      → CanJump p (record { module_id = m; function_id = c.id; block_id = k }) j
  successor-CanJump place k j c b there seen many here q =
      let cfi = built.cfi in
      let jumps =
        goes-program cfi cfi.function_map place k j c there seen many
          (goes-at c.fun.blocks k j b here q) in
      let listed =
        jumps_listed-write_allowed_bb_trans cfi cfi.function_map c.id (length c.fun.blocks) k j
        ∙ jumps in
      let (fd, found, range, e) = built.jumps_loaded c.id (length c.fun.blocks) k j listed in
      record { fdata = fd; found = rw (function_at, built.found) found; in_range = range; edge = e }
