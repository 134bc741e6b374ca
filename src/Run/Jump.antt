-- ===== src/Run/Jump.antt =====
-- monitor/src/monitor_run.c, `case CFI_BEFORE_JUMP` and `case CFI_AFTER_JUMP`, against the
-- specification.
use picon.Base.{ℕ, ◌<◌, ◌≡◌, ◌≢◌, ◌⊎◌, refl, ◌∙◌, sym, false, some, List, arith, inl, inr}
use picon.Signal.{Signal, event_of, before_jump, after_jump}
use picon.Stack.{Stack}
use picon.Tables.{FunctionData, at₂}
use picon.Run.{
  ready, in_function, expect_jump, Env, Monitor, proceed, on_before_jump, on_after_jump, trace_jump,
  save_block,
}
use picon.Run.Spec.{Frame, Step, jumps, lands, IsAbout, CanJump}
use picon.Run.Linked.{Linked, view, state-Linked, StaysInPlace}
use picon.Run.Save.{save_block-Pushed, Pushed-Linked}

module _ (env : Env) (m : Monitor) (sig : Signal) where
  before_jump_inversion :
      (m' : Monitor)
      → on_before_jump env m sig ≡ proceed m'
      → (m.state ≡ in_function)
        × (m.current_module ≡ sig.module_id)
        × (m.current_function ≡ sig.function_id)
        × (m.curblock ≡ sig.block_id)
        × (m' ≡ record m { state = expect_jump })
  unfolding on_before_jump
  before_jump_inversion m' h = ground arith

  before_jump_accepts :
      m.state ≡ in_function
      → m.current_module ≡ sig.module_id
      → m.current_function ≡ sig.function_id
      → m.curblock ≡ sig.block_id
      → on_before_jump env m sig ≡ proceed (record m { state = expect_jump })
  unfolding on_before_jump
  before_jump_accepts h₁ h₂ h₃ h₄ = ground arith

  after_jump_inversion :
      (m' : Monitor)
      → on_after_jump env m sig ≡ proceed m'
      → (f : FunctionData) × (edge : ℕ) × (t : Monitor) × (m.state ≡ expect_jump)
        × (m.current_module ≡ sig.module_id)
        × (m.current_function ≡ sig.function_id)
        × (m.current_function_data ≡ some f)
        × (sig.block_id < f.nb_blocks)
        × (at₂ f.control_flow_graph m.curblock sig.block_id ≡ some edge)
        × (edge ≢ 0)
        × (trace_jump env m f sig.block_id ≡ some t)
        × (m' ≡ record t { curblock = sig.block_id; state = in_function })
  unfolding on_after_jump
  after_jump_inversion m' h = ground arith

  after_jump_accepts :
      (f : FunctionData) (edge : ℕ) (t : Monitor)
      → m.state ≡ expect_jump
      → m.current_module ≡ sig.module_id
      → m.current_function ≡ sig.function_id
      → m.current_function_data ≡ some f
      → sig.block_id < f.nb_blocks
      → at₂ f.control_flow_graph m.curblock sig.block_id ≡ some edge
      → edge ≢ 0
      → trace_jump env m f sig.block_id ≡ some t
      → on_after_jump env m sig
        ≡ proceed (record t { curblock = sig.block_id; state = in_function })
  unfolding on_after_jump
  after_jump_accepts f edge t h₁ h₂ h₃ h₄ h₅ h₆ h₇ h₈ = ground arith

  trace_jump_cases :
      (f : FunctionData) (block : ℕ) (t : Monitor) (s : Stack ℕ)
      → save_block env m.topblock m ≡ some (record m { error = 0; blocks = s })
      → trace_jump env m f block ≡ some t
      → (t ≡ m) ⊎ (t ≡ record m { error = 0; blocks = s; topblock = block })
  unfolding trace_jump
  trace_jump_cases f block t s e h = ground arith

  -- Unless tracing reads NULL or out of range, it keeps the invariant and the current function.
  trace_jump-Linked :
      (f : FunctionData) (block : ℕ) (t : Monitor) (fs : List Frame)
      → StaysInPlace env
      → Linked env m fs
      → trace_jump env m f block ≡ some t
      → Linked env t fs
        × (t.state ≡ m.state)
        × (t.current_module ≡ m.current_module)
        × (t.current_function ≡ m.current_function)
  trace_jump-Linked f block t fs place l h =
      let (s, e, p) = save_block-Pushed env place m l.no_error m.topblock l.blocks_valid in
      elim (trace_jump_cases f block t s e h) [
        | inl same ↦ rw same (l, refl, refl, refl)
        | inr saved ↦ rw saved (Pushed-Linked env m fs m.topblock block s l p, refl, refl, refl)
      ]

  -- An accepted BEFORE_JUMP is a step of the specification.
  pub before_jump_sound :
      (m' : Monitor) (fs : List Frame)
      → event_of sig.event ≡ some before_jump
      → Linked env m fs
      → on_before_jump env m sig ≡ proceed m'
      → Step env.program sig (view m fs) (view m' fs) × Linked env m' fs
  before_jump_sound m' fs ev l h =
      let (s, a, b, c, e) = before_jump_inversion m' h in
      rw e (
        jumps ev s (record { same_module = a; same_function = b }) c,
        state-Linked env m fs expect_jump m.curblock (λ r. cc) l,
      )

  -- An accepted AFTER_JUMP is a step of the specification.
  pub after_jump_sound :
      (m' : Monitor) (fs : List Frame)
      → StaysInPlace env
      → event_of sig.event ≡ some after_jump
      → Linked env m fs
      → on_after_jump env m sig ≡ proceed m'
      → Step env.program sig (view m fs) (view m' fs) × Linked env m' fs
  after_jump_sound m' fs place ev l h =
      let (f, edge, t, s, a, b, d, r, g, n, tr, e) = after_jump_inversion m' h in
      let live : m.state ≢ ready = λ q. cc in
      let (lt, ts, tm, tf) = trace_jump-Linked f sig.block_id t fs place l tr in
      let can : CanJump env.program (view m fs).frame sig.block_id = record {
        fdata = f;
        found = sym (l.fdata_same live) ∙ d;
        in_range = r;
        edge = record { weight = edge; entry = g; nonzero = n };
      } in
      let step : Step env.program sig (view m fs)
          (view (record t { curblock = sig.block_id; state = in_function }) fs) =
        rw (tm, tf) (lands ev s (record { same_module = a; same_function = b }) can) in
      rw e (step, state-Linked env t fs in_function sig.block_id (λ q. cc) lt)

  -- Every BEFORE_JUMP that the specification allows is accepted.
  pub before_jump_complete :
      (fs : List Frame)
      → m.state ≡ in_function
      → IsAbout (view m fs).frame sig
      → m.curblock ≡ sig.block_id
      → Linked env m fs
      → (on_before_jump env m sig ≡ proceed (record m { state = expect_jump }))
        × Linked env (record m { state = expect_jump }) fs
  before_jump_complete fs s about b l = (
    before_jump_accepts s about.same_module about.same_function b,
    state-Linked env m fs expect_jump m.curblock (λ q. cc) l,
  )

  trace_jump_off :
      (f : FunctionData) (block : ℕ) → env.sm_trace ≡ false → trace_jump env m f block ≡ some m
  unfolding trace_jump
  trace_jump_off f block off = rw off

  -- Every AFTER_JUMP that the specification allows is accepted in a run that is not traced.
  pub after_jump_complete :
      (fs : List Frame)
      → env.sm_trace ≡ false
      → m.state ≡ expect_jump
      → IsAbout (view m fs).frame sig
      → CanJump env.program (view m fs).frame sig.block_id
      → Linked env m fs
      → (on_after_jump env m sig
          ≡ proceed (record m { curblock = sig.block_id; state = in_function }))
        × Linked env (record m { curblock = sig.block_id; state = in_function }) fs
  after_jump_complete fs off s about can l =
      let live : m.state ≢ ready = λ q. cc in
      (
        after_jump_accepts can.fdata can.edge.weight m s about.same_module about.same_function
            (l.fdata_same live ∙ can.found) can.in_range can.edge.entry can.edge.nonzero
            (trace_jump_off can.fdata sig.block_id off),
        state-Linked env m fs in_function sig.block_id live l,
      )
