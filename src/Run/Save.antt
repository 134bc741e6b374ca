-- ===== src/Run/Save.antt =====
-- monitor/src/monitor_run.c: BLOCK_STACK_PUSH and CALL_STACK_PUSH in a run whose stacks stay in
-- place.
use picon.Base.{ℕ, ◌≡◌, refl, some, List, arith}
use picon.Stack.{Stack}
use picon.Stack.Laws.{Pushed, push-Pushed, IsValid}
use picon.Run.{Env, Monitor, save_block, save_call}
use picon.CallStack.{CallStackElement, call_stack_extend_size, no_call}
use picon.BlockStack.{block_stack_extend_size}
use picon.Run.Spec.{Frame}
use picon.Run.Frames.{Frames-same}
use picon.Run.Linked.{Linked, StaysInPlace}

module _ (env : Env) (place : StaysInPlace env) (m : Monitor) (e : m.error ≡ 0) where
  pub save_block-Pushed :
      (v : ℕ)
      → IsValid m.blocks
      → (s : Stack ℕ) × (save_block env v m ≡ some (record m { error = 0; blocks = s }))
        × Pushed m.blocks v s
  save_block-Pushed v h =
      let (s, p, pushed) =
        push-Pushed block_stack_extend_size 0 (omega arith) env.blocks_realloc place.blocks_stay v
          m.blocks h in
      (s, ground arith, pushed)

  pub save_call-Pushed :
      (v : CallStackElement)
      → IsValid m.calls
      → (s : Stack CallStackElement) × (save_call env v m
          ≡ some (record m { error = 0; calls = s }))
        × Pushed m.calls v s
  save_call-Pushed v h =
      let (s, p, pushed) =
        push-Pushed call_stack_extend_size no_call (omega arith) env.calls_realloc place.calls_stay
          v m.calls h in
      (s, ground arith, pushed)

-- A saved block changes none of the frames below it.
pub Pushed-Linked :
    (env : Env) (m : Monitor) (fs : List Frame) (v topblock : ℕ) (s : Stack ℕ)
    → Linked env m fs
    → Pushed m.blocks v s
    → Linked env (record m { error = 0; blocks = s; topblock = topblock }) fs
Pushed-Linked env m fs v topblock s l p = record {
  mdata_same = l.mdata_same;
  fdata_same = l.fdata_same;
  no_error = refl;
  calls_valid = l.calls_valid;
  blocks_valid = p.valid;
  frames =
      Frames-same env.sm_trace m.calls m.calls m.blocks s m.calls.top m.blocks.top s.top fs refl
        p.base_same (λ ptr h. refl) p.below_same (omega (arith, p.top_up)) l.frames;
}
