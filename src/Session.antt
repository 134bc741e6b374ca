-- ===== src/Session.antt =====
-- monitor/src/monitor_load.c, `monitor_load`: the modules of a program are loaded one by one, each
-- with its relocations and the runs of its init functions, and all are then relocated strictly.
pub mod Rule
pub mod Whole
pub mod Row
pub mod Rest
use picon.Base.{
  ℕ, zero, suc, ◌+◌, ◌-◌, ◌%◌, ◌^◌, Bool, true, false, ◌==◌, List, [], ◌∷◌, Option, none, some,
}
use picon.Signal.{Signal}
use picon.Tables.{ModuleData, MonitorData, at}
use picon.Load.Packet.{Delivery}
use picon.Load.Module.{
  Loading, returned_module, returned_terminated, returned_failure, blocked, crashed,
  monitor_load_module,
}
use picon.Load.Relocations.{compute_relocations_of_module}
use picon.Run.{Env}
use picon.Run.Loop.{Round, Outcome, finished, monitor_run}

-- The options of monitor/src/defs.c that a run reads, and whether the monitor is built with
-- TIMEOUT.
pub record Options : Type 0 where
  pub sm_trace : Bool
  pub timeout : Bool
  pub nb_preload_monitor_ok_answers : ℕ

-- What one call of `monitor_run` meets: what its variable `sig` holds, what the client's pipe does,
-- and the answers of the allocator.
pub record Client : Type 0 where
  pub uninitialised : Signal
  pub rounds : List Round
  pub calls_calloc : Option ℕ
  pub blocks_calloc : Option ℕ
  pub calls_realloc : ℕ → ℕ → Option ℕ
  pub blocks_realloc : ℕ → ℕ → Option ℕ

abbrev pub env_of : Options → MonitorData → Client → Env
env_of options mon c = record {
  sm_trace = options.sm_trace;
  timeout = options.timeout;
  program = mon;
  calls_calloc = c.calls_calloc;
  blocks_calloc = c.blocks_calloc;
  calls_realloc = c.calls_realloc;
  blocks_realloc = c.blocks_realloc;
}

-- An `int` of -1, as a number of 32 bits.
abbrev pub minus_one : ℕ
minus_one = 2 ^ 32 - 1

-- How some calls of `monitor_run` end: with the last one's value and the calls that are left, in a
-- run that waits, or in a faulty access.
pub data Runs : Type 0 where
  ran : ℕ → List Client → Runs
  waits faults : Runs

-- How a session ends: with a value, the tables, and the calls that are left.
pub data Session : Type 0 where
  returned : ℕ → MonitorData → List Client → Session
  waiting faulted out_of_fuel : Session

module _ (options : Options) where
  -- `err = monitor_run(data)`
  unfoldable pub run_client : MonitorData → List Client → Runs
  run_client mon [] = waits
  run_client mon (c ∷ cs) = elim (monitor_run (env_of options mon c) c.uninitialised c.rounds) [
    | Outcome.finished err ↦ ran err cs
    | Outcome.waiting m ↦ waits
    | Outcome.crashed ↦ faults
  ]

  -- `i = 0; while((i < nb) && !err) { err = monitor_run(data); ++i; }`
  unfoldable pub run_clients : ℕ → MonitorData → List Client → Runs
  run_clients zero mon cs = ran 0 cs
  run_clients (suc nb) mon cs = elim (run_client mon cs) [
    | waits ↦ waits
    | faults ↦ faults
    | ran err cs' ↦ elim (err == 0) [ true ↦ run_clients nb mon cs' | false ↦ ran err cs' ]
  ]

  -- The last loop of `monitor_load`: `rounds` modules from `i` on. A module id has 16 bits.
  unfoldable pub relocate_all : ℕ → ℕ → MonitorData → Option (ℕ × MonitorData)
  relocate_all zero i mon = some (0, mon)
  relocate_all (suc rounds) i mon = elim (compute_relocations_of_module mon (i % 2 ^ 16) true) [
    | none ↦ none
    | some (err, mon') ↦ elim (err == 0) [
      | true ↦ relocate_all rounds (i + 1) mon'
      | false ↦ some (err, mon')
    ]
  ]

  -- The end of `monitor_load`, where all modules are there and `err` is 0.
  unfoldable pub finish_loading : MonitorData → List Client → Session
  finish_loading mon cs = elim (relocate_all mon.nb_modules 0 mon) [
    | none ↦ faulted
    | some (err, mon') ↦ returned err mon' cs
  ]

  -- After `monitor_load_module` returned 0: the relocations of the new module, and the runs of its
  -- init functions.
  unfoldable pub start_module : MonitorData → List Client → Option (MonitorData × Runs)
  start_module mon cs =
      let last = mon.nb_modules - 1 in
      elim (compute_relocations_of_module mon (last % 2 ^ 16) false) [
        | none ↦ none
        | some (err, mon') ↦ elim (err == 0) [
          | false ↦ some (mon', ran err cs)
          | true ↦ elim (at mon'.modules last) [
            | none ↦ none
            | some m ↦ some (mon', run_clients m.nb_entrypoint_inits mon' cs)
          ]
        ]
      ]

  -- The loop over the modules. Each round reads a packet, so as much fuel as there are deliveries,
  -- and one more, is enough. `event` is what a packet holds uninitialised.
  unfoldable pub load_modules : ℕ → ℕ → MonitorData → List Delivery → List Client → Session
  load_modules zero event mon ds cs = out_of_fuel
  load_modules (suc fuel) event mon ds cs = elim (monitor_load_module event mon ds) [
    | Loading.blocked mon' ↦ waiting
    | Loading.crashed ↦ faulted
    | returned_failure mon' ds' ↦ returned minus_one mon' cs
    | returned_terminated mon' ds' ↦ finish_loading mon' cs
    | returned_module mon' ds' ↦ elim (start_module mon' cs) [
      | none ↦ faulted
      | some (mon'', waits) ↦ waiting
      | some (mon'', faults) ↦ faulted
      | some (mon'', ran err cs') ↦ elim (err == 0) [
        | true ↦ load_modules fuel event mon'' ds' cs'
        | false ↦ returned err mon'' cs'
      ]
    ]
  ]

  -- `monitor_load`, with what it is given for its pipes and its runs
  unfoldable pub monitor_load : ℕ → ℕ → List Delivery → List Client → Session
  monitor_load fuel event ds cs =
      load_modules fuel event (record { nb_modules = 0; modules = none }) ds cs
