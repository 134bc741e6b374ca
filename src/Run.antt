-- ===== src/Run.antt =====
-- monitor/src/monitor_run.c: the state of one run of the monitor, and the handler of each signal.
pub mod Loop
pub mod Spec
pub mod Frames
pub mod Linked
pub mod Save
pub mod Jump
pub mod Call
pub mod Exit
pub mod Enter
pub mod Refusal
pub mod Simulation
pub mod Whole
pub mod Phases
use picon.Base.{
  ℕ, Bool, true, false, not, ◌||◌, ◌&&◌, ◌==◌, ltb, leb, if◌then◌else◌, Option, none, some, List,
  [], ◌∷◌,
}
use picon.Ids.{get_module, get_function}
use picon.Signal.{Signal, event_of, before_jump, after_jump, call, enter, exit, returned}
use picon.BlockStack
use picon.BlockStack.{BlockStack}
use picon.CallStack
use picon.CallStack.{CallStack, CallStackElement}
use picon.Tables.{FunctionData, ModuleData, MonitorData, at, at₂, is_entrypoint, is_external}

-- `monitor_state_t` of monitor/include/monitor_run.h
pub data MonitorState : Type 0 where
  ready in_function expect_call expect_return expect_jump : MonitorState

-- `==` on states.
abbrev pub same_state : MonitorState → MonitorState → Bool
same_state ready ready = true
same_state in_function in_function = true
same_state expect_call expect_call = true
same_state expect_return expect_return = true
same_state expect_jump expect_jump = true
same_state _ _ = false

-- FUNCTION_ENTRY_BLOCK_ID of monitor/include/defs.h
abbrev pub function_entry_block_id : ℕ
function_entry_block_id = 0

-- What a run depends on and does not change: the options of monitor/src/defs.c, whether the monitor
-- was built with TIMEOUT, the tables, and the answers of the allocator.
pub record Env : Type 0 where
  pub sm_trace : Bool
  pub timeout : Bool
  pub program : MonitorData
  pub calls_calloc : Option ℕ
  pub blocks_calloc : Option ℕ
  pub calls_realloc : ℕ → ℕ → Option ℕ
  pub blocks_realloc : ℕ → ℕ → Option ℕ

-- The local variables of `monitor_run`; `sig` is passed along. `current_module_data` and
-- `current_function_data` point into the tables, which a run does not change, so they are copies;
-- `none` is NULL or an address out of the array.
pub record Monitor : Type 0 where
  pub state : MonitorState
  pub current_module : ℕ
  pub current_function : ℕ
  pub curblock : ℕ
  pub topblock : ℕ
  pub current_module_data : Option ModuleData
  pub current_function_data : Option FunctionData
  pub error : ℕ
  pub calls : CallStack
  pub blocks : BlockStack

-- How the handling of a signal ends: at `break`, at `goto monitor_run_exit`, or in a fault.
pub data Flow : Type 0 where
  proceed : Monitor → Flow
  leave : Monitor → Flow
  fault : Flow

-- A faulting access ends the handling.
infixl 5 ◌>>=◌
abbrev pub ◌>>=◌ {ℓ} : {A : Type ℓ} → Option A → (A → Flow) → Flow
none >>= k = fault
some a >>= k = k a

-- `error = code; goto monitor_run_exit;`
abbrev pub refuse : Monitor → ℕ → Flow
refuse m code = leave (record m { error = code })

-- `WRITE_MONITOR_ANSWER(fd,ok_resp,error)`, given whether the byte was written.
abbrev pub write_answer : Bool → Monitor → Monitor
write_answer true m = m
write_answer false m = record m { error = 1 }

module _ (env : Env) where
  -- `BLOCK_STACK_PUSH(blocks, v, error)`
  abbrev pub save_block : ℕ → Monitor → Option Monitor
  save_block v m = elim (BlockStack.push env.blocks_realloc v (m.error, m.blocks)) [
    | none ↦ none
    | some (e, s) ↦ some (record m { error = e; blocks = s })
  ]

  -- `CALL_STACK_PUSH(calls, v, error)`
  abbrev pub save_call : CallStackElement → Monitor → Option Monitor
  save_call v m = elim (CallStack.push env.calls_realloc v (m.error, m.calls)) [
    | none ↦ none
    | some (e, s) ↦ some (record m { error = e; calls = s })
  ]

  -- `case CFI_BEFORE_JUMP`
  unfoldable pub on_before_jump : Monitor → Signal → Flow
  on_before_jump m sig =
      if not (same_state m.state in_function)
        || not (m.current_module == sig.module_id)
        || not (m.current_function == sig.function_id)
        || not (m.curblock == sig.block_id)
      then refuse m 4
      else proceed (record m { state = expect_jump })

  -- Under OPTION_sm_trace, a jump to the immediate post-dominator of `topblock` saves it.
  unfoldable pub trace_jump : Monitor → FunctionData → ℕ → Option Monitor
  trace_jump m f block = elim env.sm_trace [
    | false ↦ some m
    | true ↦ elim (at f.immediate_post_dominator m.topblock) [
      | none ↦ none
      | some ipd ↦ elim (ipd == block) [
        | false ↦ some m
        | true ↦ elim (save_block m.topblock m) [
          | none ↦ none
          | some m' ↦ some (record m' { topblock = block })
        ]
      ]
    ]
  ]

  -- `case CFI_AFTER_JUMP`
  unfoldable pub on_after_jump : Monitor → Signal → Flow
  on_after_jump m sig =
      if not (same_state m.state expect_jump)
        || not (m.current_module == sig.module_id)
        || not (m.current_function == sig.function_id)
      then refuse m 4
      else do
        f ← m.current_function_data
        if leb f.nb_blocks sig.block_id then refuse m 4 else do
          edge ← at₂ f.control_flow_graph m.curblock sig.block_id
          if edge == 0 then refuse m 4 else do
            m' ← trace_jump m f sig.block_id
            proceed (record m' { curblock = sig.block_id; state = in_function })

  -- Under OPTION_sm_trace a call saves `topblock`.
  abbrev pub save_topblock : Monitor → Option Monitor
  save_topblock m = elim env.sm_trace [ true ↦ save_block m.topblock m | false ↦ some m ]

  -- The blocks that a call saves.
  unfoldable pub save_blocks : Monitor → Option Monitor
  save_blocks m = elim (save_topblock m) [ none ↦ none | some m₁ ↦ save_block m₁.curblock m₁ ]

  -- The blocks and the frame that a call saves, in the order of the source.
  unfoldable pub save_frame : Monitor → Option Monitor
  save_frame m = elim (save_blocks m) [
    | none ↦ none
    | some m₁ ↦
        save_call
          (record {
            module_id = m₁.current_module;
            function_id = m₁.current_function;
            blocks_sp = m₁.blocks.top;
          })
          (record m₁ { curblock = function_entry_block_id; topblock = function_entry_block_id })
  ]

  -- The function that a call of an external function goes to, as `relocations` has it.
  unfoldable pub external_target : Monitor → ModuleData → ℕ → Flow
  external_target m md callee = do
    some_reloc ← at md.relocations callee
    md' ← at env.program.modules (get_module some_reloc)
    proceed (record m {
      current_module = get_module some_reloc;
      current_function = get_function some_reloc;
      current_module_data = some md';
      current_function_data = at md'.functions (get_function some_reloc);
      state = expect_call;
    })

  -- The function that a call goes to.
  unfoldable pub call_target : Monitor → ModuleData → ℕ → Flow
  call_target m md callee = do
    f ← at md.functions callee
    if is_external f
        then external_target m md callee
        else proceed (record m {
          current_function = callee;
          current_function_data = at md.functions callee;
          state = expect_call;
        })

  -- `case CFI_CALL`
  unfoldable pub on_call : Monitor → Signal → Flow
  on_call m sig = if not (same_state m.state in_function) then refuse m 4 else do
    md ← m.current_module_data
    if leb md.nb_functions sig.function_id then refuse m 4 else do
      edge ← at₂ md.call_graph m.current_function sig.function_id
      if edge == 0 then refuse m 4 else do m' ← save_frame m; call_target m' md sig.function_id

  -- `case CFI_ENTER` in the state SM_STATE_Ready
  unfoldable pub on_first_enter : Monitor → Signal → Flow
  on_first_enter m sig = if leb env.program.nb_modules sig.module_id then refuse m 6 else do
    md ← at env.program.modules sig.module_id
    let m₁ = record m { current_module_data = some md }
    if leb md.nb_functions sig.function_id then refuse m₁ 7 else do
      f ← at md.functions sig.function_id
      if not (is_entrypoint f)
          then refuse m₁ 7
          else proceed (record m₁ {
            curblock = function_entry_block_id;
            topblock = function_entry_block_id;
            current_module = sig.module_id;
            current_function = sig.function_id;
            current_function_data = some f;
            state = in_function;
          })

  -- `case CFI_ENTER`
  unfoldable pub on_enter : Monitor → Signal → Flow
  unfolding on_first_enter
  on_enter m sig =
      if same_state m.state ready
      then on_first_enter m sig
      else if not (same_state m.state expect_call)
          || not (m.current_module == sig.module_id)
          || not (m.current_function == sig.function_id)
          || not (m.curblock == function_entry_block_id)
      then refuse m 4
      else proceed (record m { state = in_function })

  -- The end of `case CFI_EXIT`: the blocks of the caller are taken back.
  unfoldable pub restore_blocks : Monitor → Option Monitor
  restore_blocks m = elim (BlockStack.pop m.blocks) [
    | none ↦ none
    | some (curblock, blocks) ↦ elim env.sm_trace [
      | false ↦ some (record m { curblock = curblock; blocks = blocks })
      | true ↦ elim (BlockStack.pop blocks) [
        | none ↦ none
        | some (topblock, blocks') ↦
            some (record m { curblock = curblock; topblock = topblock; blocks = blocks' })
      ]
    ]
  ]

  -- `case CFI_EXIT` in a function that was called
  unfoldable pub on_return : Monitor → Flow
  on_return m = do
    popped ← CallStack.pop m.calls
    let ncall = popped.0
    md ← at env.program.modules ncall.module_id
    let m₁ = record m {
      current_module = ncall.module_id;
      current_function = ncall.function_id;
      current_module_data = some md;
      current_function_data = at md.functions ncall.function_id;
      calls = popped.1;
      blocks = BlockStack.restore_top m.blocks ncall.blocks_sp;
    }
    if BlockStack.is_empty m₁.blocks
        then refuse m₁ 7
        else do m₂ ← restore_blocks m₁; proceed (record m₂ { state = expect_return })

  -- `case CFI_EXIT` in the function that the run started in
  unfoldable pub on_last_exit : Monitor → Bool → Flow
  on_last_exit m written = do
    md ← m.current_module_data
    f ← at md.functions m.current_function
    if not (is_entrypoint f)
        then refuse m 7
        else leave (write_answer written (record m { state = ready }))

  -- `case CFI_EXIT`, given whether the answer that the last exit sends is written
  unfoldable pub on_exit : Monitor → Signal → Bool → Flow
  on_exit m sig written =
      if not (same_state m.state in_function)
        || not (m.current_module == sig.module_id)
        || not (m.current_function == sig.function_id)
      then refuse m 4
      else if CallStack.is_empty m.calls
      then on_last_exit m written
      else on_return m

  -- `case CFI_RETURNED`
  unfoldable pub on_returned : Monitor → Signal → Flow
  on_returned m sig = if not (same_state m.state expect_return) then refuse m 4 else do
    md ← m.current_module_data
    if leb md.nb_functions sig.function_id then refuse m 4 else do
      edge ← at₂ md.call_graph m.current_function sig.function_id
      if edge == 0 then refuse m 4 else proceed (record m { state = in_function })

  -- `switch(sig.event)`
  unfoldable pub handle : Monitor → Signal → Bool → Flow
  handle m sig written = elim (event_of sig.event) [
    | none ↦ refuse m 5
    | some before_jump ↦ on_before_jump m sig
    | some after_jump ↦ on_after_jump m sig
    | some call ↦ on_call m sig
    | some enter ↦ on_enter m sig
    | some exit ↦ on_exit m sig written
    | some returned ↦ on_returned m sig
  ]
