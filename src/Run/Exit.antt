-- ===== src/Run/Exit.antt =====
-- monitor/src/monitor_run.c, `case CFI_EXIT` and `case CFI_RETURNED`, against the specification.
use picon.Base.{
  ℕ, ◌+◌, ◌-◌, ◌≤◌, ◌<◌, ◌≡◌, ◌≢◌, refl, ◌∙◌, sym, Bool, true, false, some, List, [], ◌∷◌, arith,
  Option-cases, Bool-cases, inl, inr,
}
use mathlib.Core.Path.{subst}
use picon.Signal.{Signal, event_of, exit, returned}
use picon.Stack.{load, is_empty, restore_top}
use picon.Stack.Laws.{IsValid, pop-load, lower-IsValid, load_total}
use picon.Tables.{FunctionData, ModuleData, at, at₂, is_entrypoint}
use picon.Run.{
  ready, in_function, expect_return, Env, Monitor, proceed, leave, on_exit, on_last_exit, on_return,
  on_returned, restore_blocks, write_answer,
}
use picon.CallStack.{CallStackElement}
use picon.Run.Spec.{Frame, Step, exits, returns, IsAbout, CanCall, IsLast, function_at}
use picon.Run.Frames.{Frames, Frames-same, slack}
use picon.Run.Linked.{Linked, view, view_lem, state-Linked}

module _ (env : Env) (m : Monitor) (sig : Signal) where
  returned_inversion :
      (m' : Monitor)
      → on_returned env m sig ≡ proceed m'
      → (md : ModuleData) × (edge : ℕ) × (m.state ≡ expect_return)
        × (m.current_module_data ≡ some md)
        × (sig.function_id < md.nb_functions)
        × (at₂ md.call_graph m.current_function sig.function_id ≡ some edge)
        × (edge ≢ 0)
        × (m' ≡ record m { state = in_function })
  unfolding on_returned
  returned_inversion m' h = ground arith

  returned_accepts :
      (md : ModuleData) (edge : ℕ)
      → m.state ≡ expect_return
      → m.current_module_data ≡ some md
      → sig.function_id < md.nb_functions
      → at₂ md.call_graph m.current_function sig.function_id ≡ some edge
      → edge ≢ 0
      → on_returned env m sig ≡ proceed (record m { state = in_function })
  unfolding on_returned
  returned_accepts md edge h₁ h₂ h₃ h₄ h₅ = ground arith

  -- An accepted RETURNED is a step of the specification.
  pub returned_sound :
      (m' : Monitor) (fs : List Frame)
      → event_of sig.event ≡ some returned
      → Linked env m fs
      → on_returned env m sig ≡ proceed m'
      → Step env.program sig (view m fs) (view m' fs) × Linked env m' fs
  returned_sound m' fs ev l h =
      let (md, edge, st, d, r, g, n, e) = returned_inversion m' h in
      let can : CanCall env.program (view m fs).frame sig.function_id = record {
        mdata = md;
        found = sym (l.mdata_same (λ q. cc)) ∙ d;
        in_range = r;
        edge = record { weight = edge; entry = g; nonzero = n };
      } in
      rw e (returns ev st can, state-Linked env m fs in_function m.curblock (λ q. cc) l)

  -- Every RETURNED that the specification allows is accepted.
  pub returned_complete :
      (fs : List Frame)
      → m.state ≡ expect_return
      → CanCall env.program (view m fs).frame sig.function_id
      → Linked env m fs
      → (on_returned env m sig ≡ proceed (record m { state = in_function }))
        × Linked env (record m { state = in_function }) fs
  returned_complete fs st can l = (
    returned_accepts can.mdata can.edge.weight st (l.mdata_same (λ q. cc) ∙ can.found) can.in_range
        can.edge.entry can.edge.nonzero,
    state-Linked env m fs in_function m.curblock (λ q. cc) l,
  )

module _ (env : Env) (m : Monitor) where
  restore_blocks_lem :
      (v : ℕ)
      → IsValid m.blocks
      → load m.blocks m.blocks.top ≡ some v
      → m.blocks.base + slack env.sm_trace ≤ m.blocks.top
      → (topblock : ℕ) × (restore_blocks env m
          ≡ some (record m {
            curblock = v;
            topblock = topblock;
            blocks = record m.blocks { top = m.blocks.top - 1 - slack env.sm_trace };
          }))
  unfolding restore_blocks
  restore_blocks_lem v h on_top room = elim (Bool-cases env.sm_trace) [
    | inl on ↦
        let room' : m.blocks.base + 1 ≤ m.blocks.top = rw on at room in
        let (w, below) = load_total m.blocks (m.blocks.top - 1) h (omega arith) (omega arith) in
        (
          w,
          ground (
            arith,
            pop-load m.blocks v on_top,
            pop-load (record m.blocks { top = m.blocks.top - 1 }) w below,
          ),
        )
    | inr off ↦ (m.topblock, ground (arith, pop-load m.blocks v on_top))
  ]

module _ (env : Env) (m : Monitor) where
  -- The run after the return to the caller `f`, whose frame is the element `e`.
  abbrev resumed : CallStackElement → Frame → ℕ → Monitor
  resumed e f topblock = record m {
    state = expect_return;
    current_module = e.module_id;
    current_function = e.function_id;
    current_module_data = at env.program.modules e.module_id;
    current_function_data = function_at env.program e.module_id e.function_id;
    curblock = f.block_id;
    topblock = topblock;
    calls = record m.calls { top = m.calls.top - 1 };
    blocks = record m.blocks { top = e.blocks_sp - 1 - slack env.sm_trace };
  }

  resumed-Linked :
      (e : CallStackElement) (f : Frame) (topblock : ℕ) (fs : List Frame)
      → IsValid m.calls
      → IsValid m.blocks
      → m.error ≡ 0
      → m.blocks.base + slack env.sm_trace ≤ e.blocks_sp
      → e.blocks_sp ≤ m.blocks.top
      → m.calls.base ≤ m.calls.top
      → Frames env.sm_trace m.calls m.blocks
          (m.calls.top - 1)
          (e.blocks_sp - 1 - slack env.sm_trace)
          fs
      → Linked env (resumed e f topblock) fs
  resumed-Linked e f topblock fs vc vb z lo hi above rest = record {
    mdata_same = λ h. refl;
    fdata_same = λ h. refl;
    no_error = z;
    calls_valid = lower-IsValid m.calls (m.calls.top - 1) vc (omega arith) (omega arith);
    blocks_valid =
        lower-IsValid m.blocks (e.blocks_sp - 1 - slack env.sm_trace) vb (omega arith)
          (omega arith);
    frames =
        Frames-same env.sm_trace m.calls (record m.calls { top = m.calls.top - 1 }) m.blocks
          (record m.blocks { top = e.blocks_sp - 1 - slack env.sm_trace }) (m.calls.top - 1)
          (e.blocks_sp - 1 - slack env.sm_trace) (e.blocks_sp - 1 - slack env.sm_trace) fs refl refl
          (λ ptr h. refl) (λ ptr h. refl) (omega arith) rest;
  }

  return_lem :
      (f : Frame) (fs : List Frame) (md : ModuleData)
      → Linked env m (f ∷ fs)
      → at env.program.modules f.module_id ≡ some md
      → (m' : Monitor) × (on_return env m ≡ proceed m')
        × (m'.state ≡ expect_return)
        × (m'.current_module ≡ f.module_id)
        × (m'.current_function ≡ f.function_id)
        × (m'.curblock ≡ f.block_id)
        × Linked env m' fs
  unfolding on_return
  return_lem f fs md l found =
      let (e, on_top, sm, sf, saved, lo, hi, above, rest) = l.frames in
      let back : Monitor = record m {
        current_module = e.module_id;
        current_function = e.function_id;
        current_module_data = some md;
        current_function_data = at md.functions e.function_id;
        calls = record m.calls { top = m.calls.top - 1 };
        blocks = restore_top m.blocks e.blocks_sp;
      } in
      let (topblock, taken) =
        restore_blocks_lem env back f.block_id
          (lower-IsValid m.blocks e.blocks_sp l.blocks_valid (omega arith) hi) saved lo in
      let found' : at env.program.modules e.module_id ≡ some md = rw sm found in
      let held : is_empty back.blocks ≡ false = ground (arith, l.blocks_valid.first_is_base) in
      (
        resumed e f topblock,
        ground (arith, pop-load m.calls e on_top),
        refl,
        sm,
        sf,
        refl,
        resumed-Linked e f topblock fs l.calls_valid l.blocks_valid l.no_error lo hi above rest,
      )

  return_found :
      (m' : Monitor) (e : CallStackElement)
      → load m.calls m.calls.top ≡ some e
      → on_return env m ≡ proceed m'
      → (md : ModuleData) × (at env.program.modules e.module_id ≡ some md)
  unfolding on_return
  return_found m' e on_top h = elim (Option-cases (at env.program.modules e.module_id)) [
    | inl missing ↦ absurd (ground (arith, pop-load m.calls e on_top))
    | inr (md, found) ↦ (md, found)
  ]

  return_refused : (m' : Monitor) → on_return env m ≡ leave m' → m'.error ≡ 7
  unfolding on_return
  return_refused m' h = ground arith

  holds_callers : (f : Frame) (fs : List Frame) → Linked env m (f ∷ fs) → is_empty m.calls ≡ false
  holds_callers f fs l =
      let above = l.frames.7 in let base = l.calls_valid.first_is_base in ground arith

  holds_none : Linked env m [] → is_empty m.calls ≡ true
  holds_none l = let none_left = l.frames in let base = l.calls_valid.first_is_base in ground arith

module _ (env : Env) (m : Monitor) (sig : Signal) (written : Bool) where
  exit_inversion :
      (m' : Monitor)
      → on_exit env m sig written ≡ proceed m'
      → (m.state ≡ in_function)
        × (m.current_module ≡ sig.module_id)
        × (m.current_function ≡ sig.function_id)
        × (is_empty m.calls ≡ false)
        × (on_return env m ≡ proceed m')
  unfolding on_exit on_last_exit
  exit_inversion m' h = ground arith

  exit_accepts :
      m.state ≡ in_function
      → m.current_module ≡ sig.module_id
      → m.current_function ≡ sig.function_id
      → is_empty m.calls ≡ false
      → on_exit env m sig written ≡ on_return env m
  unfolding on_exit
  exit_accepts h₁ h₂ h₃ h₄ = ground arith

  last_exit_inversion :
      (m' : Monitor)
      → on_exit env m sig written ≡ leave m'
      → m'.error ≡ 0
      → (md : ModuleData) × (f : FunctionData) × (m.state ≡ in_function)
        × (m.current_module ≡ sig.module_id)
        × (m.current_function ≡ sig.function_id)
        × (is_empty m.calls ≡ true)
        × (m.current_module_data ≡ some md)
        × (at md.functions m.current_function ≡ some f)
        × (is_entrypoint f ≡ true)
  unfolding on_exit on_last_exit
  last_exit_inversion m' h z = ground (arith, return_refused env m m')

  last_exit_accepts :
      (md : ModuleData) (f : FunctionData)
      → m.state ≡ in_function
      → m.current_module ≡ sig.module_id
      → m.current_function ≡ sig.function_id
      → is_empty m.calls ≡ true
      → m.current_module_data ≡ some md
      → at md.functions m.current_function ≡ some f
      → is_entrypoint f ≡ true
      → on_exit env m sig written ≡ leave (write_answer written (record m { state = ready }))
  unfolding on_exit on_last_exit
  last_exit_accepts md f h₁ h₂ h₃ h₄ h₅ h₆ h₇ = ground arith

  -- An accepted EXIT of a called function is a step of the specification.
  pub exit_sound :
      (m' : Monitor) (fs : List Frame)
      → event_of sig.event ≡ some exit
      → Linked env m fs
      → on_exit env m sig written ≡ proceed m'
      → (fs' : List Frame) × Step env.program sig (view m fs) (view m' fs') × Linked env m' fs'
  exit_sound m' [] ev l h =
      let (st, a, b, held, ret) = exit_inversion m' h in absurd (ground (arith, holds_none env m l))
  exit_sound m' (f ∷ fs) ev l h =
      let (st, a, b, held, ret) = exit_inversion m' h in
      let e = l.frames.0 in
      let on_top = l.frames.1 in
      let sm = l.frames.2 in
      let (md, found) = return_found env m m' e on_top ret in
      let found' : at env.program.modules f.module_id ≡ some md = rw sm at found in
      let (m₁, ret₁, st₁, sm₁, sf₁, sb₁, l₁) = return_lem env m f fs md l found' in
      let same : m' ≡ m₁ = cc in
      let step : Step env.program sig (view m (f ∷ fs))
          (record { state = expect_return; frame = f; callers = fs }) =
        exits f fs md ev st (record { same_module = a; same_function = b }) refl found' in
      rw same (
        fs,
        subst (Step env.program sig (view m (f ∷ fs)))
            (view_lem m₁ fs expect_return f st₁ sm₁ sf₁ sb₁) step,
        l₁,
      )

  -- Every EXIT of a called function that the specification allows is accepted.
  pub exit_complete :
      (f : Frame) (fs : List Frame) (md : ModuleData)
      → m.state ≡ in_function
      → IsAbout (view m (f ∷ fs)).frame sig
      → at env.program.modules f.module_id ≡ some md
      → Linked env m (f ∷ fs)
      → (m' : Monitor) × (on_exit env m sig written ≡ proceed m')
        × (record { state = expect_return; frame = f; callers = fs } ≡ view m' fs)
        × Linked env m' fs
  exit_complete f fs md st about found l =
      let (m₁, ret, st₁, sm₁, sf₁, sb₁, l₁) = return_lem env m f fs md l found in
      (
        m₁,
        exit_accepts st about.same_module about.same_function (holds_callers env m f fs l) ∙ ret,
        view_lem m₁ fs expect_return f st₁ sm₁ sf₁ sb₁,
        l₁,
      )

  -- A run that an EXIT ends with no error has no callers left, and is in an entry point.
  pub exit-IsLast :
      (m' : Monitor) (fs : List Frame)
      → event_of sig.event ≡ some exit
      → Linked env m fs
      → on_exit env m sig written ≡ leave m'
      → m'.error ≡ 0
      → IsLast env.program sig (view m fs)
  exit-IsLast m' [] ev l h z =
      let (md, f, st, a, b, empty, d, g, entry) = last_exit_inversion m' h z in
      record {
        is_exit = ev;
        running = st;
        about = record { same_module = a; same_function = b };
        no_callers = refl;
        start = record {
          mdata = md;
          fdata = f;
          found = sym (l.mdata_same (λ q. cc)) ∙ d;
          found_function = g;
          entrypoint = entry;
        };
      }
  exit-IsLast m' (f ∷ fs) ev l h z =
      let (md, fd, st, a, b, empty, d, g, entry) = last_exit_inversion m' h z in
      absurd (ground (arith, holds_callers env m f fs l))

  -- Every EXIT that the specification allows as the last signal ends the run.
  pub IsLast-exit :
      (fs : List Frame)
      → IsLast env.program sig (view m fs)
      → Linked env m fs
      → on_exit env m sig written ≡ leave (write_answer written (record m { state = ready }))
  IsLast-exit [] q l =
      last_exit_accepts q.start.mdata q.start.fdata q.running q.about.same_module
        q.about.same_function (holds_none env m l)
        (l.mdata_same (λ r. cc (q.running)) ∙ q.start.found) q.start.found_function
        q.start.entrypoint
  IsLast-exit (f ∷ fs) q l = cc (q.no_callers)
