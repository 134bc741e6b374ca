-- ===== src/Run/Simulation.antt =====
-- monitor/src/monitor_run.c: the handling of a signal against the specification, for every event.
use mathlib.Core.Path.{subst}
use picon.Base.{ℕ, ◌≡◌, refl, ◌∙◌, sym, Bool, false, Option, none, some, List, ◌∷◌, arith}
use picon.Signal.{
  ClientEvent, Signal, event_of, before_jump, after_jump, call, enter, exit, returned,
}
use picon.Tables.{MonitorData}
use picon.Run.{
  ready, in_function, expect_jump, expect_call, Env, Monitor, Flow, proceed, leave, refuse, handle,
  on_before_jump, on_after_jump, on_call, on_enter, on_exit, on_returned, write_answer,
}
use picon.Run.Spec.{
  Frame, Config, Target, internal, external, Step, jumps, lands, calls, starts, enters, exits,
  returns, IsLast,
}
use picon.Run.Linked.{Linked, view, view_lem, StaysInPlace}
use picon.Run.Jump.{before_jump_sound, after_jump_sound, before_jump_complete, after_jump_complete}
use picon.Run.Call.{call_sound, call_complete}
use picon.Run.Enter.{enter_sound, first_enter_complete, enter_complete}
use picon.Run.Refusal.{
  before_jump_refused, after_jump_refused, call_refused, enter_refused, returned_refused,
}
use picon.Run.Exit.{
  exit_sound, exit_complete, returned_sound, returned_complete, exit-IsLast, IsLast-exit,
}

-- A call goes to the entry block.
block-Target :
    (p : MonitorData) (m callee : ℕ) (target : Frame)
    → Target p m callee target
    → target.block_id ≡ 0
block-Target p m callee target (internal fd e off) = refl
block-Target p m callee target (external md md' fd reloc e₁ e₂ on e₃ e₄) = refl

module _ (env : Env) (m : Monitor) (sig : Signal) (written : Bool) where
  -- The case of the `switch` that an event selects.
  abbrev pub case : Option ClientEvent → Flow
  case none = refuse m 5
  case (some before_jump) = on_before_jump env m sig
  case (some after_jump) = on_after_jump env m sig
  case (some call) = on_call env m sig
  case (some enter) = on_enter env m sig
  case (some exit) = on_exit env m sig written
  case (some returned) = on_returned env m sig

  pub handle-case :
      (o : Option ClientEvent) → event_of sig.event ≡ o → handle env m sig written ≡ case o
  unfolding handle
  handle-case none e = rw (e, handle)
  handle-case (some before_jump) e = rw (e, handle)
  handle-case (some _) e = rw (e, handle)

  module _ (place : StaysInPlace env) (fs : List Frame) (l : Linked env m fs) where
    case_sound :
        (m' : Monitor) (o : Option ClientEvent)
        → event_of sig.event ≡ o
        → case o ≡ proceed m'
        → (fs' : List Frame) × Step env.program sig (view m fs) (view m' fs') × Linked env m' fs'
    case_sound m' none ev h = absurd (ground arith)
    case_sound m' (some before_jump) ev h =
        let (s, l') = before_jump_sound env m sig m' fs ev l h in (fs, s, l')
    case_sound m' (some after_jump) ev h =
        let (s, l') = after_jump_sound env m sig m' fs place ev l h in (fs, s, l')
    case_sound m' (some call) ev h =
        let (s, l') = call_sound env place m sig fs l m' ev h in ((view m fs).frame ∷ fs, s, l')
    case_sound m' (some enter) ev h =
        let (s, l') = enter_sound env m sig m' fs ev l h in (fs, s, l')
    case_sound m' (some exit) ev h = exit_sound env m sig written m' fs ev l h
    case_sound m' (some returned) ev h =
        let (s, l') = returned_sound env m sig m' fs ev l h in (fs, s, l')

    -- If the stacks stay in place, a signal that the monitor accepts, in a run that meets the
    -- invariant, is a step of the specification, and the run after it meets the invariant.
    pub handle_sound :
        (m' : Monitor)
        → handle env m sig written ≡ proceed m'
        → (fs' : List Frame) × Step env.program sig (view m fs) (view m' fs') × Linked env m' fs'
    handle_sound m' h =
        case_sound m' (event_of sig.event) refl (sym (handle-case (event_of sig.event) refl) ∙ h)

    -- What the specification allows, the monitor accepts with the same outcome, in a run that is
    -- not traced.
    pub handle_complete :
        (c : Config)
        → env.sm_trace ≡ false
        → Step env.program sig (view m fs) c
        → (m' : Monitor) × (fs' : List Frame) × (handle env m sig written ≡ proceed m')
          × (c ≡ view m' fs')
          × Linked env m' fs'
    handle_complete c off (jumps ev st about b) =
        let (e, l') = before_jump_complete env m sig fs st about b l in
        (record m { state = expect_jump }, fs, handle-case (some before_jump) ev ∙ e, refl, l')
    handle_complete c off (lands ev st about can) =
        let (e, l') = after_jump_complete env m sig fs off st about can l in
        (
          record m { curblock = sig.block_id; state = in_function },
          fs,
          handle-case (some after_jump) ev ∙ e,
          refl,
          l',
        )
    handle_complete c off (calls target ev st can to) =
        let (m', e, st', a, b, z, l') = call_complete env place m sig fs l target st can to in
        (
          m',
          (view m fs).frame ∷ fs,
          handle-case (some call) ev ∙ e,
          view_lem m' ((view m fs).frame ∷ fs) expect_call target st' a b
              (z ∙ sym (block-Target env.program m.current_module sig.function_id target to)),
          l',
        )
    handle_complete c off (starts ev st small s r) =
        let (e, l') = first_enter_complete env m sig fs st small s r l in
        (_, fs, handle-case (some enter) ev ∙ e, refl, l')
    handle_complete c off (enters ev st about z) =
        let (e, l') = enter_complete env m sig fs st about z l in
        (record m { state = in_function }, fs, handle-case (some enter) ev ∙ e, refl, l')
    handle_complete c off (exits f rest md ev st about held found) =
        let (m', e, v, l') =
          exit_complete env m sig written f rest md st about found (subst (Linked env m) held l) in
        (m', rest, handle-case (some exit) ev ∙ e, v, l')
    handle_complete c off (returns ev st can) =
        let (e, l') = returned_complete env m sig fs st can l in
        (record m { state = in_function }, fs, handle-case (some returned) ev ∙ e, refl, l')

    -- A signal that ends the run with no error is the EXIT of the entry point that it started in.
    pub handle-IsLast :
        (m' : Monitor)
        → handle env m sig written ≡ leave m'
        → m'.error ≡ 0
        → IsLast env.program sig (view m fs)
    handle-IsLast m' h z = case-IsLast (event_of sig.event) refl (sym (handle-case _ refl) ∙ h)
      where
        case-IsLast :
            (o : Option ClientEvent)
            → event_of sig.event ≡ o
            → case o ≡ leave m'
            → IsLast env.program sig (view m fs)
        case-IsLast none ev e = absurd (ground arith)
        case-IsLast (some before_jump) ev e =
            absurd (ground (arith, before_jump_refused env m sig m' e))
        case-IsLast (some after_jump) ev e =
            absurd (ground (arith, after_jump_refused env m sig m' e))
        case-IsLast (some call) ev e = absurd (ground (arith, call_refused env m sig m' e))
        case-IsLast (some enter) ev e = absurd (ground (arith, enter_refused env m sig m' e))
        case-IsLast (some exit) ev e = exit-IsLast env m sig written m' fs ev l e z
        case-IsLast (some returned) ev e = absurd (ground (arith, returned_refused env m sig m' e))

    -- The EXIT that the specification allows as the last signal ends the run; its error is the one
    -- of the answer.
    pub IsLast-handle :
        IsLast env.program sig (view m fs)
        → handle env m sig written ≡ leave (write_answer written (record m { state = ready }))
    IsLast-handle q = handle-case (some exit) q.is_exit ∙ IsLast-exit env m sig written fs q l
