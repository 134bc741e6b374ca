-- ===== src/Run/Phases.antt =====
-- monitor/src/monitor_run.c: the states between which the signals move a run, for any tables and
-- any allocator.
use picon.Base.{
  ℕ, ◌≡◌, ◌⊎◌, refl, ◌∙◌, sym, Bool, true, false, Option, none, some, arith, inl, inr, List, [],
  ◌∷◌,
}
use picon.Signal.{
  ClientEvent, Signal, event_of, before_jump, after_jump, call, enter, exit, returned,
}
use picon.Tables.{ModuleData}
use picon.Run.{
  MonitorState, ready, in_function, expect_call, expect_return, expect_jump, Env, Monitor, proceed,
  leave, handle, on_before_jump, on_after_jump, on_call, on_enter, on_exit, on_last_exit, on_return,
  on_returned, external_target, call_target,
}
use picon.Signal.Codec.{InRange, read_signal-nil}
use picon.Run.Loop.{Round, finished, loop, read_and_handle, run_exit}
use picon.Run.Simulation.{case, handle-case}

-- The states in which an event is awaited, and the state after it.
pub data Moves : ClientEvent → MonitorState → MonitorState → Type 0 where
  jumps : Moves before_jump in_function expect_jump
  lands : Moves after_jump expect_jump in_function
  calls : Moves call in_function expect_call
  starts : Moves enter ready in_function
  enters : Moves enter expect_call in_function
  exits : Moves exit in_function expect_return
  returns : Moves returned expect_return in_function

module _ (env : Env) (m : Monitor) (sig : Signal) (written : Bool) (m' : Monitor) where
  after_call :
      (t : Monitor) (md : ModuleData)
      → call_target env t md sig.function_id ≡ proceed m'
      → m'.state ≡ expect_call
  unfolding call_target external_target
  after_call t md h = ground arith

  after_return : on_return env m ≡ proceed m' → m'.state ≡ expect_return
  unfolding on_return
  after_return h = ground arith

  before_jump_states :
      on_before_jump env m sig ≡ proceed m' → (m.state ≡ in_function) × (m'.state ≡ expect_jump)
  unfolding on_before_jump
  before_jump_states h = ground arith

  after_jump_states :
      on_after_jump env m sig ≡ proceed m' → (m.state ≡ expect_jump) × (m'.state ≡ in_function)
  unfolding on_after_jump
  after_jump_states h = ground arith

  call_states : on_call env m sig ≡ proceed m' → (m.state ≡ in_function) × (m'.state ≡ expect_call)
  unfolding on_call
  call_states h = grind (arith, after_call)

  enter_states :
      on_enter env m sig ≡ proceed m'
      → ((m.state ≡ ready) ⊎ (m.state ≡ expect_call)) × (m'.state ≡ in_function)
  unfolding on_enter
  enter_states h = ground arith

  exit_states :
      on_exit env m sig written ≡ proceed m' → (m.state ≡ in_function) × (m'.state ≡ expect_return)
  unfolding on_exit on_last_exit
  exit_states h = ground (arith, after_return)

  returned_states :
      on_returned env m sig ≡ proceed m' → (m.state ≡ expect_return) × (m'.state ≡ in_function)
  unfolding on_returned
  returned_states h = ground arith

  case-Moves :
      (o : Option ClientEvent)
      → event_of sig.event ≡ o
      → case env m sig written o ≡ proceed m'
      → (e : ClientEvent) × (event_of sig.event ≡ some e) × Moves e m.state m'.state
  case-Moves none ev h = absurd (ground arith)
  case-Moves (some before_jump) ev h =
      let (a, b) = before_jump_states h in (before_jump, ev, rw (a, b) jumps)
  case-Moves (some after_jump) ev h =
      let (a, b) = after_jump_states h in (after_jump, ev, rw (a, b) lands)
  case-Moves (some call) ev h = let (a, b) = call_states h in (call, ev, rw (a, b) calls)
  case-Moves (some enter) ev h = elim (enter_states h).0 [
    | inl a ↦ (enter, ev, rw (a, (enter_states h).1) starts)
    | inr a ↦ (enter, ev, rw (a, (enter_states h).1) enters)
  ]
  case-Moves (some exit) ev h = let (a, b) = exit_states h in (exit, ev, rw (a, b) exits)
  case-Moves (some returned) ev h =
      let (a, b) = returned_states h in (returned, ev, rw (a, b) returns)

  -- A signal that is accepted has a known event, which is awaited in the state before it, and leads
  -- to the state that follows that event.
  pub handle-Moves :
      handle env m sig written ≡ proceed m'
      → (e : ClientEvent) × (event_of sig.event ≡ some e) × Moves e m.state m'.state
  handle-Moves h =
      case-Moves (event_of sig.event) refl
        (sym (handle-case env m sig written (event_of sig.event) refl) ∙ h)

-- In the state after an event the same event is refused, before anything is read.
again_refused :
    (env : Env) (m : Monitor) (sig : Signal) (written : Bool) {e : ClientEvent}
    {s s' : MonitorState}
    → Moves e s s'
    → m.state ≡ s'
    → case env m sig written (some e) ≡ leave (record m { error = 4 })
unfolding on_before_jump on_after_jump on_call on_enter on_exit on_returned
again_refused env m sig written jumps h = ground arith
again_refused env m sig written lands h = ground arith
again_refused env m sig written calls h = ground arith
again_refused env m sig written starts h = ground arith
again_refused env m sig written enters h = ground arith
again_refused env m sig written exits h = ground arith
again_refused env m sig written returns h = ground arith

-- No signal is accepted twice in a row: handled again after it was accepted, under any value of the
-- error variable, it is refused with the error 4, and nothing else changes.
pub repeated_signal_refused :
    (env : Env) (m m' : Monitor) (sig : Signal) (written written' : Bool) (err : ℕ)
    → handle env m sig written ≡ proceed m'
    → handle env (record m' { error = err }) sig written' ≡ leave (record m' { error = 4 })
repeated_signal_refused env m m' sig written written' err h =
    let (e, ev, mv) = handle-Moves env m sig written m' h in
    handle-case env (record m' { error = err }) sig written' (some e) ev
    ∙ again_refused env (record m' { error = err }) sig written' mv refl

-- If the client closes its pipe after a signal was accepted and answered, the run ends at once with
-- the error 4: the end of the file leaves the last signal in place, and it is refused the second
-- time. That is for a run that is not traced and a signal whose fields fit.
pub end_of_file_ends_run :
    (env : Env) (m m' : Monitor) (sig : Signal) (written : Bool) (r : Round) (rs : List Round)
    → env.sm_trace ≡ false
    → InRange sig
    → handle env m sig written ≡ proceed m'
    → m'.error ≡ 0
    → r.in_time ≡ true
    → r.packet ≡ []
    → loop env m' sig (r ∷ rs) ≡ finished 4
unfolding loop read_and_handle run_exit
end_of_file_ends_run env m m' sig written r rs off fits h z timely closed =
    let again = repeated_signal_refused env m m' sig written r.written 1 h in
    let stale = read_signal-nil sig m'.error fits in ground (arith, again, stale)
