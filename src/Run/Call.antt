-- ===== src/Run/Call.antt =====
-- monitor/src/monitor_run.c, `case CFI_CALL`, against the specification.
use picon.Base.{
  ℕ, ◌+◌, ◌-◌, ◌≤◌, ◌<◌, ◌≡◌, ◌≢◌, refl, ◌∙◌, sym, Bool, true, false, some, List, ◌∷◌, arith,
  Option-cases, Bool-cases, inl, inr,
}
use mathlib.Core.Path.{subst}
use picon.Ids.{get_module, get_function}
use picon.Signal.{Signal, event_of, call}
use picon.Stack.{Stack, load}
use picon.Stack.Laws.{IsValid}
use picon.Tables.{FunctionData, ModuleData, MonitorData, at, at₂, is_external}
use picon.Run.{
  in_function, expect_call, Env, Monitor, proceed, on_call, save_blocks, save_frame,
  external_target, call_target,
}
use picon.CallStack.{CallStackElement}
use picon.Run.Spec.{Frame, Config, Step, calls, CanCall, Target, internal, external, function_at}
use picon.Run.Frames.{Frames, Frames-same, slack}
use picon.Run.Linked.{Linked, view, StaysInPlace}
use picon.Run.Save.{save_block-Pushed, save_call-Pushed}

-- What saving the blocks of a caller leaves on the block stack.
record SavedBlocks (traced : Bool) (s : Stack ℕ) (curblock : ℕ) (s' : Stack ℕ) : Type 0 where
  valid : IsValid s'
  base_same : s'.base ≡ s.base
  top_up : s'.top ≡ s.top + 1 + slack traced
  on_top : load s' s'.top ≡ some curblock
  below_same : (ptr : ℕ) → ptr ≤ s.top → load s' ptr ≡ load s ptr

module _ (env : Env) (place : StaysInPlace env) (m : Monitor) (no_error : m.error ≡ 0) where
  save_blocks_lem :
      IsValid m.blocks
      → (s : Stack ℕ) × (save_blocks env m ≡ some (record m { error = 0; blocks = s }))
        × SavedBlocks env.sm_trace m.blocks m.curblock s
  unfolding save_blocks
  save_blocks_lem h = elim (Bool-cases env.sm_trace) [
    | inl on ↦
        let (s₁, e₁, p₁) = save_block-Pushed env place m no_error m.topblock h in
        let (s₂, e₂, p₂) =
          save_block-Pushed env place (record m { error = 0; blocks = s₁ }) refl m.curblock
            p₁.valid in
        (
          s₂,
          ground arith,
          record {
            valid = p₂.valid;
            base_same = p₂.base_same ∙ p₁.base_same;
            top_up = rw on (omega (arith, p₁.top_up, p₂.top_up));
            on_top = rw p₂.top_up p₂.on_top;
            below_same =
                λ ptr le. p₂.below_same ptr (omega (arith, p₁.top_up)) ∙ p₁.below_same ptr le;
          },
        )
    | inr off ↦
        let (s, e, p) = save_block-Pushed env place m no_error m.curblock h in
        (
          s,
          ground arith,
          record {
            valid = p.valid;
            base_same = p.base_same;
            top_up = rw off (omega (arith, p.top_up));
            on_top = rw p.top_up p.on_top;
            below_same = p.below_same;
          },
        )
  ]

  -- A call saves the current function and block as the nearest caller, and goes to the entry block.
  pub save_frame-Frames :
      (fs : List Frame)
      → Linked env m fs
      → (s : Stack ℕ) × (c : Stack CallStackElement) × (save_frame env m
          ≡ some (record m { error = 0; blocks = s; calls = c; curblock = 0; topblock = 0 }))
        × IsValid s
        × IsValid c
        × Frames env.sm_trace c s c.top s.top ((view m fs).frame ∷ fs)
  unfolding save_frame
  save_frame-Frames fs l =
      let (s, e, b) = save_blocks_lem l.blocks_valid in
      let frame : CallStackElement = record {
        module_id = m.current_module;
        function_id = m.current_function;
        blocks_sp = s.top;
      } in
      let (c, k, p) =
        save_call-Pushed env place (record m { error = 0; blocks = s; curblock = 0; topblock = 0 })
          refl frame l.calls_valid in
      let down : c.top - 1 ≡ m.calls.top = omega (arith, p.top_up) in
      (
        s,
        c,
        ground arith,
        b.valid,
        p.valid,
        (
          frame,
          rw p.top_up p.on_top,
          refl,
          refl,
          b.on_top,
          omega (arith, b.top_up, b.base_same, l.blocks_valid.top_above),
          omega arith,
          omega (arith, p.top_up, p.base_same, l.calls_valid.top_above),
          rw down (
              Frames-same env.sm_trace m.calls c m.blocks s m.calls.top m.blocks.top
                (s.top - 1 - slack env.sm_trace) fs p.base_same b.base_same p.below_same
                b.below_same (omega (arith, b.top_up)) l.frames),
        ),
      )

module _ (env : Env) (m : Monitor) (sig : Signal) where
  call_inversion :
      (m' : Monitor)
      → on_call env m sig ≡ proceed m'
      → (md : ModuleData) × (edge : ℕ) × (t : Monitor) × (m.state ≡ in_function)
        × (m.current_module_data ≡ some md)
        × (sig.function_id < md.nb_functions)
        × (at₂ md.call_graph m.current_function sig.function_id ≡ some edge)
        × (edge ≢ 0)
        × (save_frame env m ≡ some t)
        × (call_target env t md sig.function_id ≡ proceed m')
  unfolding on_call
  call_inversion m' h = ground arith

  call_accepts :
      (md : ModuleData) (edge : ℕ) (t : Monitor)
      → m.state ≡ in_function
      → m.current_module_data ≡ some md
      → sig.function_id < md.nb_functions
      → at₂ md.call_graph m.current_function sig.function_id ≡ some edge
      → edge ≢ 0
      → save_frame env m ≡ some t
      → on_call env m sig ≡ call_target env t md sig.function_id
  unfolding on_call
  call_accepts md edge t h₁ h₂ h₃ h₄ h₅ h₆ = ground arith

-- The run after a call of `target` from it.
abbrev landed : Env → Monitor → Frame → Monitor
landed env t target = record t {
  current_module = target.module_id;
  current_function = target.function_id;
  current_module_data = at env.program.modules target.module_id;
  current_function_data = function_at env.program target.module_id target.function_id;
  state = expect_call;
}

module _ (env : Env) (t : Monitor) (md : ModuleData) (callee : ℕ)
    (same : t.current_module_data ≡ some md)
    (found : at env.program.modules t.current_module ≡ some md) where
  internal_case :
      (fd : FunctionData)
      → at md.functions callee ≡ some fd
      → is_external fd ≡ false
      → call_target env t md callee
        ≡ proceed (
            landed env t
              (record { module_id = t.current_module; function_id = callee; block_id = 0 }))
  unfolding call_target
  internal_case fd e off = ground arith

  external_case :
      (fd : FunctionData) (reloc : ℕ) (md' : ModuleData)
      → at md.functions callee ≡ some fd
      → is_external fd ≡ true
      → at md.relocations callee ≡ some reloc
      → at env.program.modules (get_module reloc) ≡ some md'
      → call_target env t md callee
        ≡ proceed (
            landed env t (record {
              module_id = get_module reloc;
              function_id = get_function reloc;
              block_id = 0;
            }))
  unfolding call_target external_target
  external_case fd reloc md' e on r e' = ground arith

  Target-complete :
      (target : Frame)
      → Target env.program t.current_module callee target
      → call_target env t md callee ≡ proceed (landed env t target)
  Target-complete target (internal fd e off) =
      let e' : at md.functions callee ≡ some fd = ground arith in internal_case fd e' off
  Target-complete target (external mdx md' fd reloc e₁ e₂ on e₃ e₄) =
      let q : mdx ≡ md = cc in external_case fd reloc md' (rw q at e₂) on (rw q at e₃) e₄

  Target-sound :
      (m' : Monitor)
      → call_target env t md callee ≡ proceed m'
      → (target : Frame) × Target env.program t.current_module callee target
        × (target.block_id ≡ 0)
        × (m' ≡ landed env t target)
  unfolding call_target external_target
  Target-sound m' h = elim (Option-cases (at md.functions callee)) [
    | inl missing ↦ absurd (ground arith)
    | inr (fd, e) ↦ elim (Bool-cases (is_external fd)) [
      | inr off ↦ (
        record { module_id = t.current_module; function_id = callee; block_id = 0 },
        internal fd (ground arith) off,
        refl,
        cc (internal_case fd e off),
      )
      | inl on ↦ elim (Option-cases (at md.relocations callee)) [
        | inl missing ↦ absurd (ground arith)
        | inr (reloc, r) ↦ elim (Option-cases (at env.program.modules (get_module reloc))) [
          | inl missing ↦ absurd (ground arith)
          | inr (md', e') ↦ (
            record { module_id = get_module reloc; function_id = get_function reloc; block_id = 0 },
            external md md' fd reloc found e on r e',
            refl,
            cc (external_case fd reloc md' e on r e'),
          )
        ]
      ]
    ]
  ]

-- The step of a call, with the entry block written out.
call-Step :
    (p : MonitorData) (sig : Signal) (c : Config) (target : Frame)
    → target.block_id ≡ 0
    → event_of sig.event ≡ some call
    → c.state ≡ in_function
    → CanCall p c.frame sig.function_id
    → Target p c.frame.module_id sig.function_id target
    → Step p sig c (record {
      state = expect_call;
      frame = record {
        module_id = target.module_id;
        function_id = target.function_id;
        block_id = 0;
      };
      callers = c.frame ∷ c.callers;
    })
call-Step p sig c target entry ev st can to =
    subst
      (λ (b : ℕ). Step p sig c (record {
        state = expect_call;
        frame = record {
          module_id = target.module_id;
          function_id = target.function_id;
          block_id = b;
        };
        callers = c.frame ∷ c.callers;
      }))
      entry (calls target ev st can to)

-- The run after an accepted CALL, whose blocks and frame are saved on `s` and `c`.
abbrev called : Env → Monitor → Stack ℕ → Stack CallStackElement → Frame → Monitor
called env m s c target =
    landed env (record m { error = 0; blocks = s; calls = c; curblock = 0; topblock = 0 }) target

module _ (env : Env) (place : StaysInPlace env) (m : Monitor) (sig : Signal) (fs : List Frame)
    (l : Linked env m fs) where
  called-Linked :
      (s : Stack ℕ) (c : Stack CallStackElement) (target : Frame)
      → IsValid s
      → IsValid c
      → Frames env.sm_trace c s c.top s.top ((view m fs).frame ∷ fs)
      → Linked env (called env m s c target) ((view m fs).frame ∷ fs)
  called-Linked s c target vs vc f = record {
    mdata_same = λ h. refl;
    fdata_same = λ h. refl;
    no_error = refl;
    calls_valid = vc;
    blocks_valid = vs;
    frames = f;
  }

  -- An accepted CALL is a step of the specification.
  pub call_sound :
      (m' : Monitor)
      → event_of sig.event ≡ some call
      → on_call env m sig ≡ proceed m'
      → Step env.program sig (view m fs) (view m' ((view m fs).frame ∷ fs))
        × Linked env m' ((view m fs).frame ∷ fs)
  call_sound m' ev h =
      let (s, c, e, vs, vc, f) = save_frame-Frames env place m l.no_error fs l in
      let (md, edge, t, st, d, r, g, n, sf, ct) = call_inversion env m sig m' h in
      let found : at env.program.modules m.current_module ≡ some md =
        sym (l.mdata_same (λ q. cc)) ∙ d in
      let saved : Monitor = record m {
        error = 0;
        blocks = s;
        calls = c;
        curblock = 0;
        topblock = 0;
      } in
      let same : t ≡ saved = cc in
      let (target, to, entry, land) =
        Target-sound env saved md sig.function_id d found m' (rw same at ct) in
      let can : CanCall env.program (view m fs).frame sig.function_id = record {
        mdata = md;
        found = found;
        in_range = r;
        edge = record { weight = edge; entry = g; nonzero = n };
      } in
      let step : Step env.program sig (view m fs)
          (view (called env m s c target) ((view m fs).frame ∷ fs)) =
        call-Step env.program sig (view m fs) target entry ev st can to in
      rw land (step, called-Linked s c target vs vc f)

  -- Every CALL that the specification allows is accepted.
  pub call_complete :
      (target : Frame)
      → m.state ≡ in_function
      → CanCall env.program (view m fs).frame sig.function_id
      → Target env.program m.current_module sig.function_id target
      → (m' : Monitor) × (on_call env m sig ≡ proceed m')
        × (m'.state ≡ expect_call)
        × (m'.current_module ≡ target.module_id)
        × (m'.current_function ≡ target.function_id)
        × (m'.curblock ≡ 0)
        × Linked env m' ((view m fs).frame ∷ fs)
  call_complete target st can to =
      let (s, c, e, vs, vc, f) = save_frame-Frames env place m l.no_error fs l in
      let saved : Monitor = record m {
        error = 0;
        blocks = s;
        calls = c;
        curblock = 0;
        topblock = 0;
      } in
      let d : m.current_module_data ≡ some can.mdata = l.mdata_same (λ q. cc) ∙ can.found in
      (
        called env m s c target,
        call_accepts env m sig can.mdata can.edge.weight saved st d can.in_range can.edge.entry
              can.edge.nonzero e
            ∙ Target-complete env saved can.mdata sig.function_id d can.found target to,
        refl,
        refl,
        refl,
        refl,
        called-Linked s c target vs vc f,
      )
