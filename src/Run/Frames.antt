-- ===== src/Run/Frames.antt =====
-- monitor/src/monitor_run.c: how the two stacks of a run hold the frames of its callers.
use picon.Base.{ℕ, ◌+◌, ◌-◌, ◌≤◌, ◌≡◌, ◌∙◌, Bool, true, false, some, List, [], ◌∷◌, arith}
use picon.Stack.{Stack, load}
use picon.CallStack.{CallStackElement}
use picon.Run.Spec.{Frame}

-- A call saves `topblock` under `curblock` if the run is traced.
abbrev pub slack : Bool → ℕ
slack true = 1
slack false = 0

-- The call stack holds a frame for each caller from `ctop` down, and the block that a caller was in
-- stands at its `blocks_sp`. The saved blocks of different callers do not overlap, and stand at
-- `btop` or below.
abbrev pub Frames : Bool → Stack CallStackElement → Stack ℕ → ℕ → ℕ → List Frame → Type 0
Frames traced calls blocks ctop btop [] = ctop + 1 ≡ calls.base
Frames traced calls blocks ctop btop (f ∷ fs) =
    (e : CallStackElement) × (load calls ctop ≡ some e)
    × (e.module_id ≡ f.module_id)
    × (e.function_id ≡ f.function_id)
    × (load blocks e.blocks_sp ≡ some f.block_id)
    × (blocks.base + slack traced ≤ e.blocks_sp)
    × (e.blocks_sp ≤ btop)
    × (calls.base ≤ ctop)
    × Frames traced calls blocks (ctop - 1) (e.blocks_sp - 1 - slack traced) fs

-- Stacks that agree up to the tops hold the same frames.
pub Frames-same :
    (traced : Bool) (calls calls' : Stack CallStackElement) (blocks blocks' : Stack ℕ)
    (ctop btop btop' : ℕ) (fs : List Frame)
    → calls'.base ≡ calls.base
    → blocks'.base ≡ blocks.base
    → ((ptr : ℕ) → ptr ≤ ctop → load calls' ptr ≡ load calls ptr)
    → ((ptr : ℕ) → ptr ≤ btop → load blocks' ptr ≡ load blocks ptr)
    → btop ≤ btop'
    → Frames traced calls blocks ctop btop fs
    → Frames traced calls' blocks' ctop btop' fs
Frames-same traced calls calls' blocks blocks' ctop btop btop' [] cb bb ch bh le h = omega arith
Frames-same traced calls calls' blocks blocks' ctop btop btop' (f ∷ fs) cb bb ch bh le
      (e, on_top, same_module, same_function, saved, lo, hi, above, rest) =
    (
      e,
      ch ctop (omega arith) ∙ on_top,
      same_module,
      same_function,
      bh e.blocks_sp hi ∙ saved,
      omega arith,
      omega arith,
      omega arith,
      Frames-same traced calls calls' blocks blocks' (ctop - 1) (e.blocks_sp - 1 - slack traced)
          (e.blocks_sp - 1 - slack traced) fs cb bb (λ ptr p. ch ptr (omega arith))
          (λ ptr p. bh ptr (omega arith)) (omega arith) rest,
    )
