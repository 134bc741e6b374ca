-- ===== src/Run/Whole.antt =====
-- monitor/src/monitor_run.c: the loop as a whole against the specification.
use mathlib.Core.Path.{subst}
use picon.Base.{
  ℕ, ◌≤◌, ◌≡◌, ◌≢◌, ◌⊎◌, refl, ◌∙◌, sym, ap, Bool, true, false, not, ◌&&◌, ◌==◌, none, some, List,
  [], ◌∷◌, map, length, arith, Bool-cases, inl, inr, Option-cases,
}
use picon.Signal.{Signal, signal_size}
use picon.Signal.Codec.{received, read_signal-received}
use picon.Tables.{MonitorData}
use picon.Stack.{Stack, init}
use picon.Run.{Env, Monitor, Flow, proceed, leave, fault, handle, write_answer, ready}
use picon.CallStack.{CallStackElement, no_call, call_stack_extend_size}
use picon.BlockStack.{block_stack_extend_size}
use picon.Run.Loop.{
  Round, Outcome, finished, loop, run_exit, wait_signal, read_and_handle, resume, monitor_run,
  start,
}
use picon.Run.Spec.{Frame, Config, Step, IsLast, Completes, last, more, idle}
use picon.Run.Linked.{Linked, view, StaysInPlace, start-Linked}
use picon.Run.Simulation.{handle_sound, handle_complete, handle-IsLast, IsLast-handle}

-- Every packet that is read holds a whole signal.
abbrev pub AllWhole : List Round → Type 0
AllWhole [] = Unit {0}
AllWhole (r ∷ rs) = (signal_size ≤ length r.packet) × AllWhole rs

-- `calloc` does not answer with the address 0.
pub record IsLive (env : Env) : Type 0 where
  pub calls_live : (b : ℕ) → env.calls_calloc ≡ some b → 1 ≤ b
  pub blocks_live : (b : ℕ) → env.blocks_calloc ≡ some b → 1 ≤ b

-- The signals that the packets hold.
abbrev pub signals : List Round → List Signal
signals rs = map (λ r. received r.packet) rs

module _ (env : Env) where
  run_exit_error : (m : Monitor) (k : ℕ) → run_exit env m ≡ finished k → k ≡ m.error
  unfolding run_exit
  run_exit_error m k h = ground arith

  loop_late :
      (m : Monitor) (sig : Signal) (r : Round) (rs : List Round)
      → (env.timeout && not r.in_time) ≡ true
      → loop env m sig (r ∷ rs) ≡ run_exit env (record m { error = 1 })
  unfolding loop read_and_handle
  loop_late m sig r rs late = rw (late, loop)

  read_whole :
      (m : Monitor) (sig : Signal) (r : Round) (next : Monitor → Signal → Outcome)
      → m.error ≡ 0
      → signal_size ≤ length r.packet
      → read_and_handle env m sig r next
        ≡ resume env r.written
            (λ m'. next m' (received r.packet))
            (handle env m (received r.packet) r.written)
  unfolding read_and_handle
  read_whole m sig r next z whole =
      let quiet : (m.error == 0) ≡ true = ground arith in
      rw (quiet, read_signal-received r.packet sig m.error whole, read_and_handle)

  loop_read :
      (m : Monitor) (sig : Signal) (r : Round) (rs : List Round)
      → (env.timeout && not r.in_time) ≡ false
      → m.error ≡ 0
      → signal_size ≤ length r.packet
      → loop env m sig (r ∷ rs)
        ≡ resume env r.written
            (λ m'. loop env m' (received r.packet) rs)
            (handle env m (received r.packet) r.written)
  unfolding loop
  loop_read m sig r rs timely z whole =
      rw (timely, loop) (read_whole m sig r (λ m' sig'. loop env m' sig' rs) z whole)

  -- A run with a pending error does not return 0.
  loop_pending :
      (m : Monitor) (sig : Signal) (rs : List Round) → m.error ≢ 0 → loop env m sig rs ≢ finished 0
  unfolding loop read_and_handle
  loop_pending m sig [] err h = ground (arith, run_exit_error m 0)
  loop_pending m sig (r ∷ rs) err h = ground (arith, run_exit_error (wait_signal env r.in_time m) 0)

  module _ (place : StaysInPlace env) where
    resume_sound :
        (m : Monitor) (r : Round) (rs : List Round) (fs : List Frame)
        → Linked env m fs
        → ((m' : Monitor) (fs' : List Frame)
            → Linked env m' fs'
            → loop env m' (received r.packet) rs ≡ finished 0
            → Completes env.program (view m' fs') (signals rs))
        → (o : Flow) → handle env m (received r.packet) r.written ≡ o
        → resume env r.written (λ m'. loop env m' (received r.packet) rs) o ≡ finished 0
        → Completes env.program (view m fs) (signals (r ∷ rs))
    resume_sound m r rs fs l ih fault e h = cc
    resume_sound m r rs fs l ih (leave m') e h = last (
        handle-IsLast env m (received r.packet) r.written place fs l m' e
          (sym (run_exit_error m' 0 h)))
    resume_sound m r rs fs l ih (proceed m') e h = elim (Bool-cases r.written) [
      | inl sent ↦
          let (fs', step, l') = handle_sound env m (received r.packet) r.written place fs l m' e in
          more step (ih m' fs' l' (rw sent at h))
      | inr lost ↦ absurd (
          loop_pending (record m' { error = 1 }) (received r.packet) rs (omega arith)
            (rw lost at h))
    ]

    -- From a run that meets the invariant, if the stacks stay in place and every packet is whole, a
    -- result 0 means that the signals, in order, are a whole run of the specification.
    pub loop_sound :
        (rs : List Round) (m : Monitor) (sig : Signal) (fs : List Frame)
        → Linked env m fs
        → AllWhole rs
        → loop env m sig rs ≡ finished 0
        → Completes env.program (view m fs) (signals rs)
    unfolding loop
    loop_sound [] m sig fs l w h = absurd (ground (arith, l.no_error))
    loop_sound (r ∷ rs) m sig fs l w h = elim (Bool-cases (env.timeout && not r.in_time)) [
      | inl late ↦
          let z : ◌≡◌ {A = ℕ} 0 1 =
            run_exit_error (record m { error = 1 }) 0 (sym (loop_late m sig r rs late) ∙ h) in
          absurd (omega arith)
      | inr timely ↦
          resume_sound m r rs fs l
            (λ m' fs' l' h'. loop_sound rs m' (received r.packet) fs' l' w.1 h')
            (handle env m (received r.packet) r.written) refl
            (sym (loop_read m sig r rs timely l.no_error w.0) ∙ h)
    ]

  run_starts :
      (sig : Signal) (rs : List Round) (b₁ b₂ : ℕ) (calls : Stack CallStackElement)
      (blocks : Stack ℕ)
      → env.calls_calloc ≡ some b₁
      → env.blocks_calloc ≡ some b₂
      → init call_stack_extend_size no_call (some b₁) ≡ some calls
      → init block_stack_extend_size 0 (some b₂) ≡ some blocks
      → monitor_run env sig rs ≡ loop env (start calls blocks) sig rs
  unfolding monitor_run
  run_starts sig rs b₁ b₂ calls blocks e₁ e₂ i₁ i₂ = ground arith

  -- Without memory for its stacks, `monitor_run` returns 1 and reads nothing.
  pub run_without_memory :
      (sig : Signal) (rs : List Round)
      → (env.calls_calloc ≡ none) ⊎ (env.blocks_calloc ≡ none)
      → monitor_run env sig rs ≡ finished 1
  unfolding monitor_run init
  run_without_memory sig rs h = ground arith

  -- `monitor_run` returns 0 only if the signals, in order, are a whole run of the specification
  -- from its start. That is so if the stacks stay in place, no block is allocated at NULL, and
  -- every packet is whole.
  pub monitor_run_sound :
      (sig : Signal) (rs : List Round)
      → StaysInPlace env
      → IsLive env
      → AllWhole rs
      → monitor_run env sig rs ≡ finished 0
      → Completes env.program idle (signals rs)
  monitor_run_sound sig rs place live w h = elim (Option-cases env.calls_calloc) [
    | inl missing ↦ absurd (ground (arith, run_without_memory sig rs (inl missing)))
    | inr (b₁, e₁) ↦ elim (Option-cases env.blocks_calloc) [
      | inl missing ↦ absurd (ground (arith, run_without_memory sig rs (inr missing)))
      | inr (b₂, e₂) ↦
          let (calls, blocks, i₁, i₂, l) =
            start-Linked env b₁ b₂ (live.calls_live b₁ e₁) (live.blocks_live b₂ e₂) in
          loop_sound place rs (start calls blocks) sig [] l w
            (sym (run_starts sig rs b₁ b₂ calls blocks e₁ e₂ i₁ i₂) ∙ h)
    ]
  ]

-- Every signal comes in time, in a whole packet, and its answer is written.
abbrev pub AllServed : List Round → Type 0
AllServed [] = Unit {0}
AllServed (r ∷ rs) =
    (r.in_time ≡ true) × (r.written ≡ true) × (signal_size ≤ length r.packet) × AllServed rs

-- A whole run ends here or goes on by a step.
Completes-cases :
    (p : MonitorData) (c : Config) (sig : Signal) (rest : List Signal)
    → Completes p c (sig ∷ rest)
    → IsLast p sig c ⊎ ((c' : Config) × Step p sig c c' × Completes p c' rest)
Completes-cases p c sig rest (last q) = inl q
Completes-cases p c sig rest (more {c' = c'} s k) = inr (c', s, k)

answer_sent : (written : Bool) (m : Monitor) → written ≡ true → write_answer written m ≡ m
answer_sent written m h = rw h

run_exit_quiet : (env : Env) (m : Monitor) → m.error ≡ 0 → run_exit env m ≡ finished 0
unfolding run_exit
run_exit_quiet env m z = ground arith

module _ (env : Env) (place : StaysInPlace env) (off : env.sm_trace ≡ false) where
  loop_complete :
      (rs : List Round) (m : Monitor) (sig : Signal) (fs : List Frame)
      → Linked env m fs
      → AllServed rs
      → Completes env.program (view m fs) (signals rs)
      → loop env m sig rs ≡ finished 0
  loop_complete [] m sig fs l s k = elim k [ ]
  loop_complete (r ∷ rs) m sig fs l (timely, sent, whole, s) k =
      let read = loop_read env m sig r rs (ground arith) l.no_error whole in
      elim (Completes-cases env.program (view m fs) (received r.packet) (signals rs) k) [
        | inl q ↦
            read
            ∙ (ap (resume env r.written (λ m'. loop env m' (received r.packet) rs))
                  (IsLast-handle env m (received r.packet) r.written place fs l q)
                ∙ rw sent (run_exit_quiet env (record m { state = ready }) l.no_error))
        | inr (c', step, k') ↦
            let (m', fs', e, v, l') =
              handle_complete env m (received r.packet) r.written place fs l c' off step in
            read
            ∙ (ap (resume env r.written (λ m'. loop env m' (received r.packet) rs)) e
                ∙ (ap (λ m₁. loop env m₁ (received r.packet) rs) (answer_sent r.written m' sent)
                    ∙ loop_complete rs m' (received r.packet) fs' l' s
                        (subst (λ c. Completes env.program c (signals rs)) v k')))
      ]

  -- `monitor_run`, not traced, returns 0 on every whole run of the specification whose signals come
  -- in time and in whole packets and whose answers are written, if its stacks can be allocated and
  -- stay in place.
  pub monitor_run_complete :
      (sig : Signal) (rs : List Round) (b₁ b₂ : ℕ)
      → env.calls_calloc ≡ some b₁
      → env.blocks_calloc ≡ some b₂
      → 1 ≤ b₁
      → 1 ≤ b₂
      → AllServed rs
      → Completes env.program idle (signals rs)
      → monitor_run env sig rs ≡ finished 0
  monitor_run_complete sig rs b₁ b₂ e₁ e₂ live₁ live₂ s k =
      let (calls, blocks, i₁, i₂, l) = start-Linked env b₁ b₂ live₁ live₂ in
      run_starts env sig rs b₁ b₂ calls blocks e₁ e₂ i₁ i₂
      ∙ loop_complete rs (start calls blocks) sig [] l s k
