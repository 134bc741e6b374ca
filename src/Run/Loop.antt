-- ===== src/Run/Loop.antt =====
-- monitor/src/monitor_run.c: the loop of `monitor_run` and its exit.
use picon.Base.{
  ℕ, Bool, true, false, not, ◌||◌, ◌&&◌, ◌==◌, if◌then◌else◌, Option, none, some, List, [], ◌∷◌,
}
use picon.Signal.{Signal, read_signal}
use picon.BlockStack
use picon.BlockStack.{BlockStack}
use picon.CallStack
use picon.CallStack.{CallStack, CallStackElement}
use picon.Run.{Env, Monitor, ready, Flow, proceed, leave, fault, write_answer, handle}

-- What the environment does in one round of the loop: whether a signal comes before the timeout,
-- the bytes of the packet that is read, and whether the answer can be written.
pub record Round : Type 0 where
  pub in_time : Bool
  pub packet : List ℕ
  pub written : Bool

-- How far a run is: it has returned a value, is blocked until the next round, or made a faulty
-- access.
pub data Outcome : Type 0 where
  finished : ℕ → Outcome
  waiting : Monitor → Outcome
  crashed : Outcome

-- The locals as `monitor_run` starts, with its two stacks.
abbrev pub start : CallStack → BlockStack → Monitor
start calls blocks = record {
  state = ready;
  current_module = 0;
  current_function = 0;
  curblock = 0;
  topblock = 0;
  current_module_data = none;
  current_function_data = none;
  error = 0;
  calls = calls;
  blocks = blocks;
}

module _ (env : Env) where
  -- Under OPTION_sm_trace an error prints the stacks, with the current function on top. The answer
  -- is what is printed; the stacks are freed next.
  unfoldable pub exit_trace : Monitor → Option (List CallStackElement × List ℕ)
  exit_trace m = elim (BlockStack.push env.blocks_realloc m.curblock (0, m.blocks)) [
    | none ↦ none
    | some (err, blocks) ↦
        elim (CallStack.push env.calls_realloc
          (record {
            module_id = m.current_module;
            function_id = m.current_function;
            blocks_sp = blocks.top;
          })
          (err, m.calls)) [
            | none ↦ none
            | some (err', calls) ↦ elim (CallStack.trace calls) [
              | none ↦ none
              | some cs ↦ elim (BlockStack.trace blocks) [
                | none ↦ none
                | some bs ↦ elim (BlockStack.pop blocks) [
                  | none ↦ none
                  | some b ↦ elim (CallStack.pop calls) [ none ↦ none | some c ↦ some (cs, bs) ]
                ]
              ]
            ]
          ]
  ]

  -- From the label `monitor_run_exit` on.
  unfoldable pub run_exit : Monitor → Outcome
  run_exit m =
      if m.error == 0 || not env.sm_trace
      then finished m.error
      else elim (exit_trace m) [ none ↦ crashed | some log ↦ finished m.error ]

  -- MONITOR_SIGNAL_TIMEOUT: it does something only in a build with TIMEOUT.
  abbrev pub wait_signal : Bool → Monitor → Monitor
  wait_signal in_time m = if env.timeout && not in_time then record m { error = 1 } else m

  -- After the `switch`: `next` is the rest of the run.
  abbrev pub resume : Bool → (Monitor → Outcome) → Flow → Outcome
  resume written next fault = crashed
  resume written next (leave m) = run_exit m
  resume written next (proceed m) = next (write_answer written m)

  -- What follows a wait: a pending error ends the run, and else a signal is read and handled.
  unfoldable pub read_and_handle : Monitor → Signal → Round → (Monitor → Signal → Outcome) → Outcome
  read_and_handle m sig r next = elim (m.error == 0) [
    | false ↦ run_exit m
    | true ↦
        let (err, sig') = read_signal r.packet (m.error, sig) in
        resume r.written (λ m'. next m' sig') (handle env (record m { error = err }) sig' r.written)
  ]

  -- `while(1)`, from the wait that precedes the reading of each signal: `sig` is the last one read.
  -- Where no round is left, a pending error still ends the run unless `pselect` comes first.
  unfoldable pub loop : Monitor → Signal → List Round → Outcome
  loop m sig [] = if not env.timeout && not (m.error == 0) then run_exit m else waiting m
  loop m sig (r ∷ rs) = read_and_handle (wait_signal r.in_time m) sig r (λ m' sig'. loop m' sig' rs)

  -- `monitor_run`, where `sig` is what its variable holds uninitialised.
  unfoldable pub monitor_run : Signal → List Round → Outcome
  monitor_run sig rs = elim (CallStack.init env.calls_calloc) [
    | none ↦ finished 1
    | some calls ↦ elim (BlockStack.init env.blocks_calloc) [
      | none ↦ finished 1
      | some blocks ↦ loop (start calls blocks) sig rs
    ]
  ]
