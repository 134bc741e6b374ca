-- ===== src/Run/Enter.antt =====
-- monitor/src/monitor_run.c, `case CFI_ENTER`, against the specification.
use picon.Base.{◌<◌, ◌≡◌, ◌≢◌, sym, true, some, List, arith, Bool-cases, inl, inr}
use picon.Signal.{Signal, event_of, enter}
use picon.Tables.{FunctionData, ModuleData, at, is_entrypoint}
use picon.Run.{ready, in_function, expect_call, Env, Monitor, proceed, on_enter, same_state}
use picon.Run.Spec.{Frame, Step, starts, enters, IsAbout, IsEntrypoint}
use picon.Run.Linked.{Linked, view, state-Linked}

module _ (env : Env) (m : Monitor) (sig : Signal) where
  -- The run after the ENTER that starts it.
  abbrev started : ModuleData → FunctionData → Monitor
  started md f = record m {
    current_module_data = some md;
    curblock = 0;
    topblock = 0;
    current_module = sig.module_id;
    current_function = sig.function_id;
    current_function_data = some f;
    state = in_function;
  }

  first_enter_inversion :
      (m' : Monitor)
      → on_enter env m sig ≡ proceed m'
      → m.state ≡ ready
      → (md : ModuleData) × (f : FunctionData) × (sig.module_id < env.program.nb_modules)
        × (at env.program.modules sig.module_id ≡ some md)
        × (sig.function_id < md.nb_functions)
        × (at md.functions sig.function_id ≡ some f)
        × (is_entrypoint f ≡ true)
        × (m' ≡ started md f)
  unfolding on_enter
  first_enter_inversion m' h st = ground arith

  first_enter_accepts :
      (md : ModuleData) (f : FunctionData)
      → m.state ≡ ready
      → sig.module_id < env.program.nb_modules
      → at env.program.modules sig.module_id ≡ some md
      → sig.function_id < md.nb_functions
      → at md.functions sig.function_id ≡ some f
      → is_entrypoint f ≡ true
      → on_enter env m sig ≡ proceed (started md f)
  unfolding on_enter
  first_enter_accepts md f h₁ h₂ h₃ h₄ h₅ h₆ = ground arith

  started-Linked :
      (md : ModuleData) (f : FunctionData) (fs : List Frame)
      → at env.program.modules sig.module_id ≡ some md
      → at md.functions sig.function_id ≡ some f
      → Linked env m fs
      → Linked env (started md f) fs
  started-Linked md f fs found found_function l = record {
    mdata_same = λ h. sym found;
    fdata_same = λ h. ground arith;
    no_error = l.no_error;
    calls_valid = l.calls_valid;
    blocks_valid = l.blocks_valid;
    frames = l.frames;
  }

  enter_inversion :
      (m' : Monitor)
      → on_enter env m sig ≡ proceed m'
      → m.state ≢ ready
      → (m.state ≡ expect_call)
        × (m.current_module ≡ sig.module_id)
        × (m.current_function ≡ sig.function_id)
        × (m.curblock ≡ 0)
        × (m' ≡ record m { state = in_function })
  unfolding on_enter
  enter_inversion m' h live = ground arith

  enter_accepts :
      m.state ≡ expect_call
      → m.current_module ≡ sig.module_id
      → m.current_function ≡ sig.function_id
      → m.curblock ≡ 0
      → on_enter env m sig ≡ proceed (record m { state = in_function })
  unfolding on_enter
  enter_accepts h₁ h₂ h₃ h₄ = ground arith

  -- An accepted ENTER is a step of the specification.
  pub enter_sound :
      (m' : Monitor) (fs : List Frame)
      → event_of sig.event ≡ some enter
      → Linked env m fs
      → on_enter env m sig ≡ proceed m'
      → Step env.program sig (view m fs) (view m' fs) × Linked env m' fs
  enter_sound m' fs ev l h = elim (Bool-cases (same_state m.state ready)) [
    | inl first ↦
        let st : m.state ≡ ready = ground arith in
        let (md, f, small, found, r, g, entry, e) = first_enter_inversion m' h st in
        let start : IsEntrypoint env.program sig.module_id sig.function_id = record {
          mdata = md;
          fdata = f;
          found = found;
          found_function = g;
          entrypoint = entry;
        } in
        rw e (starts ev st small start r, started-Linked md f fs found g l)
    | inr again ↦
        let live : m.state ≢ ready = λ q. ground arith in
        let (st, a, b, z, e) = enter_inversion m' h live in
        rw e (
          enters ev st (record { same_module = a; same_function = b }) z,
          state-Linked env m fs in_function m.curblock live l,
        )
  ]

  -- Every ENTER that the specification allows as the first signal is accepted.
  pub first_enter_complete :
      (fs : List Frame)
      → m.state ≡ ready
      → sig.module_id < env.program.nb_modules
      → (s : IsEntrypoint env.program sig.module_id sig.function_id)
      → sig.function_id < s.mdata.nb_functions
      → Linked env m fs
      → (on_enter env m sig ≡ proceed (started s.mdata s.fdata))
        × Linked env (started s.mdata s.fdata) fs
  first_enter_complete fs st small s r l = (
    first_enter_accepts s.mdata s.fdata st small s.found r s.found_function s.entrypoint,
    started-Linked s.mdata s.fdata fs s.found s.found_function l,
  )

  -- Every ENTER that the specification allows after a CALL is accepted.
  pub enter_complete :
      (fs : List Frame)
      → m.state ≡ expect_call
      → IsAbout (view m fs).frame sig
      → m.curblock ≡ 0
      → Linked env m fs
      → (on_enter env m sig ≡ proceed (record m { state = in_function }))
        × Linked env (record m { state = in_function }) fs
  enter_complete fs st about z l = (
    enter_accepts st about.same_module about.same_function z,
    state-Linked env m fs in_function m.curblock (λ q. cc) l,
  )
