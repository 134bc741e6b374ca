-- ===== src/Run/Refusal.antt =====
-- monitor/src/monitor_run.c: the signals that end a run, other than EXIT, and the error they leave.
use picon.Base.{◌≡◌, ◌≢◌, ◌⊎◌, arith}
use picon.Signal.{Signal}
use picon.Tables.{ModuleData}
use picon.Run.{
  Env, Monitor, leave, on_before_jump, on_after_jump, on_call, on_enter, on_returned,
  external_target, call_target,
}

module _ (env : Env) (m : Monitor) (sig : Signal) (m' : Monitor) where
  pub before_jump_refused : on_before_jump env m sig ≡ leave m' → m' ≡ record m { error = 4 }
  unfolding on_before_jump
  before_jump_refused h = ground arith

  pub after_jump_refused : on_after_jump env m sig ≡ leave m' → m' ≡ record m { error = 4 }
  unfolding on_after_jump
  after_jump_refused h = ground arith

  pub returned_refused : on_returned env m sig ≡ leave m' → m' ≡ record m { error = 4 }
  unfolding on_returned
  returned_refused h = ground arith

  target_never_refused :
      (t : Monitor) (md : ModuleData) → call_target env t md sig.function_id ≢ leave m'
  unfolding call_target external_target
  target_never_refused t md h = ground arith

  pub call_refused : on_call env m sig ≡ leave m' → m' ≡ record m { error = 4 }
  unfolding on_call
  call_refused h = grind (arith, target_never_refused)

  pub enter_refused :
      on_enter env m sig ≡ leave m' → (m'.error ≡ 4) ⊎ ((m'.error ≡ 6) ⊎ (m'.error ≡ 7))
  unfolding on_enter
  enter_refused h = ground arith
