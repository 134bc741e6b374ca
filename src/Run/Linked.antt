-- ===== src/Run/Linked.antt =====
-- monitor/src/monitor_run.c: the invariant of a run, and the configuration that its variables stand
-- for.
use picon.Base.{ℕ, ◌≤◌, ◌≡◌, ◌≢◌, refl, some, List, [], arith}
use picon.Stack
use picon.Stack.{Stack}
use picon.Stack.Laws.{InPlace, IsValid, init-IsValid}
use picon.Tables.{at}
use picon.Run.{MonitorState, ready, Env, Monitor}
use picon.CallStack.{CallStackElement, no_call, call_stack_extend_size}
use picon.BlockStack.{block_stack_extend_size}
use picon.Run.Loop.{start}
use picon.Run.Spec.{Frame, Config, function_at}
use picon.Run.Frames.{Frames}

-- The configuration of a run whose callers are `fs`.
abbrev pub view : Monitor → List Frame → Config
view m fs = record {
  state = m.state;
  frame = record {
    module_id = m.current_module;
    function_id = m.current_function;
    block_id = m.curblock;
  };
  callers = fs;
}

-- A configuration is known from the variables that it is made of.
pub view_lem :
    (m : Monitor) (fs : List Frame) (s : MonitorState) (f : Frame)
    → m.state ≡ s
    → m.current_module ≡ f.module_id
    → m.current_function ≡ f.function_id
    → m.curblock ≡ f.block_id
    → record { state = s; frame = f; callers = fs } ≡ view m fs
view_lem m fs s f h₁ h₂ h₃ h₄ = ground arith

-- The reallocations of both stacks succeed, and grow the blocks where they stand.
pub record StaysInPlace (env : Env) : Type 0 where
  pub calls_stay : InPlace env.calls_realloc
  pub blocks_stay : InPlace env.blocks_realloc

-- The pointers of a run point to what they are named after, and its stacks hold the callers.
pub record Linked (env : Env) (m : Monitor) (fs : List Frame) : Type 0 where
  pub mdata_same : m.state ≢ ready → m.current_module_data ≡ at env.program.modules m.current_module
  pub fdata_same :
      m.state ≢ ready
      → m.current_function_data ≡ function_at env.program m.current_module m.current_function
  pub no_error : m.error ≡ 0
  pub calls_valid : IsValid m.calls
  pub blocks_valid : IsValid m.blocks
  pub frames : Frames env.sm_trace m.calls m.blocks m.calls.top m.blocks.top fs

-- A change of the state, but to SM_STATE_Ready, and of the blocks that are not on the stack keeps
-- the invariant.
pub state-Linked :
    (env : Env) (m : Monitor) (fs : List Frame) (s : MonitorState) (curblock : ℕ)
    → m.state ≢ ready
    → Linked env m fs
    → Linked env (record m { state = s; curblock = curblock }) fs
state-Linked env m fs s curblock live l = record {
  mdata_same = λ h. l.mdata_same live;
  fdata_same = λ h. l.fdata_same live;
  no_error = l.no_error;
  calls_valid = l.calls_valid;
  blocks_valid = l.blocks_valid;
  frames = l.frames;
}

-- Two new stacks hold no caller.
pub start-Linked :
    (env : Env) (b₁ b₂ : ℕ)
    → 1 ≤ b₁
    → 1 ≤ b₂
    → (calls : Stack CallStackElement) × (blocks : Stack ℕ) × (Stack.init call_stack_extend_size
          no_call
          (some b₁)
        ≡ some calls)
      × (Stack.init block_stack_extend_size 0 (some b₂) ≡ some blocks)
      × Linked env (start calls blocks) []
start-Linked env b₁ b₂ h₁ h₂ =
    let (calls, e₁, v₁, _, t₁) = init-IsValid call_stack_extend_size no_call b₁ (omega arith) h₁ in
    let (blocks, e₂, v₂, _, t₂) = init-IsValid block_stack_extend_size 0 b₂ (omega arith) h₂ in
    (
      calls,
      blocks,
      e₁,
      e₂,
      record {
        mdata_same = λ h. absurd (h refl);
        fdata_same = λ h. absurd (h refl);
        no_error = refl;
        calls_valid = v₁;
        blocks_valid = v₂;
        frames = omega arith;
      },
    )
