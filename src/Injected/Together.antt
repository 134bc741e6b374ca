-- ===== src/Injected/Together.antt =====
-- include/picon/injected_code.c and monitor/src/monitor_run.c: a client whose calls the
-- specification allows.
use picon.Base.{ℕ, ◌^◌, ◌<◌, ◌≡◌, refl, ◌∙◌, sym, ap, true, false, List, [], ◌∷◌}
use mathlib.Core.Path.{subst}
use picon.Signal.{Signal}
use picon.Tables.{MonitorData}
use picon.Run.{Env, Monitor, proceed, handle}
use picon.Run.Spec.{Frame, Config, Step}
use picon.Run.Linked.{StaysInPlace, Linked, view}
use picon.Run.Simulation.{handle_complete}
use picon.Injected.{
  Injected, Event, cfi_enter, prepare, running, resumed, exchange, run_events, answer_of,
  send_monitor,
}
use picon.Injected.Follows.{
  Follows, stop, step, signal_of, signals_of, Fits, AllFit, prepare_lem, read_prepared,
}

-- The module id of the client.
abbrev pub module_of : Injected → ℕ
module_of st = st.cs.module_id

signal_of_module : (m_id : ℕ) (e : Event) → (signal_of m_id e).module_id ≡ m_id
signal_of_module m_id (cfi_enter f) = refl
signal_of_module m_id _ = refl

prepare_module : (e : Event) (st : Injected) → module_of (prepare e st) ≡ module_of st
prepare_module e st = ap (λ s. s.module_id) (prepare_lem e st) ∙ signal_of_module (module_of st) e

module _ (env : Env) where
  exchange_reads :
      (e : Event) (m : Monitor) (sig : Signal) (st : Injected)
      → m.error ≡ 0
      → module_of st < 2 ^ 16
      → Fits e
      → exchange env e m sig st
        ≡ resumed env
            (handle env m (signal_of (module_of st) e) true)
            (signal_of (module_of st) e)
            (prepare e st)
  unfolding exchange
  exchange_reads e m sig st z h w = rw (exchange, read_prepared e st sig m.error h w) refl

  resumed_proceed :
      (m : Monitor) (sig : Signal) (st : Injected)
      → resumed env (proceed m) sig st ≡ running m sig st
  unfolding resumed send_monitor answer_of
  resumed_proceed m sig st = refl

  -- What the monitor accepts lets the client go on.
  exchange_accepted :
      (e : Event) (m m' : Monitor) (sig : Signal) (st : Injected)
      → m.error ≡ 0
      → module_of st < 2 ^ 16
      → Fits e
      → handle env m (signal_of (module_of st) e) true ≡ proceed m'
      → exchange env e m sig st ≡ running m' (signal_of (module_of st) e) (prepare e st)
  exchange_accepted e m m' sig st z h w accepted =
      let s = signal_of (module_of st) e in
      exchange_reads e m sig st z h w
      ∙ (ap (λ f. resumed env f s (prepare e st)) accepted ∙ resumed_proceed m' s (prepare e st))

Follows-cases :
    (p : MonitorData) (c' c : Config) (sig : Signal) (rest : List Signal)
    → Follows p c' c (sig ∷ rest)
    → (d : Config) × Step p sig c d × Follows p c' d rest
Follows-cases p c' c sig rest (step {d = d} s f) = (d, s, f)

Follows-nil : (p : MonitorData) (c' c : Config) → Follows p c' c [] → c' ≡ c
Follows-nil p c' c stop = refl

module _ (env : Env) (place : StaysInPlace env) where
  -- In a run that is not traced, and without answers that are sent in advance, a client whose
  -- calls the specification allows one after the other is not stopped: it gets past them all, and
  -- the monitor is then in the configuration that they lead to. The ids fit and the stacks stay
  -- in place.
  pub allowed_events_pass :
      (es : List Event) (m : Monitor) (sig : Signal) (st : Injected) (fs : List Frame) (c : Config)
      → env.sm_trace ≡ false
      → Linked env m fs
      → module_of st < 2 ^ 16
      → AllFit es
      → Follows env.program c (view m fs) (signals_of (module_of st) es)
      → (m' : Monitor) × (sig' : Signal) × (st' : Injected) × (fs' : List Frame) × (run_events env
            es m sig st
          ≡ running m' sig' st')
        × (c ≡ view m' fs')
        × Linked env m' fs'
  unfolding run_events
  allowed_events_pass [] m sig st fs c off l h w f =
      (m, sig, st, fs, refl, Follows-nil env.program c (view m fs) f, l)
  allowed_events_pass (e ∷ es) m sig st fs c off l h w f =
      let s = signal_of (module_of st) e in
      let (d, first, others) =
        Follows-cases env.program c (view m fs) s (signals_of (module_of st) es) f in
      let (m₁, fs₁, accepted, v, l₁) = handle_complete env m s true place fs l d off first in
      let x = exchange_accepted env e m m₁ sig st l.no_error h w.0 accepted in
      let st₁ = prepare e st in
      let same = prepare_module e st in
      let others₁ =
        subst (λ k. Follows env.program c k (signals_of (module_of st) es)) (v) others in
      let (m', sig', st', fs', r, v', l') =
        allowed_events_pass es m₁ s st₁ fs₁ c off l₁ (rw same h) w.1
          (subst (λ i. Follows env.program c (view m₁ fs₁) (signals_of i es)) (sym same) others₁) in
      (m', sig', st', fs', rw (run_events, x) r, v', l')
