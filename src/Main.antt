-- ===== src/Main.antt =====
-- monitor/src/main.c: the process of the monitor, from the checks of its environment to its exit
-- status.
pub mod Sound
pub mod Faults
mod Tests
use picon.Base.{
  ℕ, zero, suc, ◌+◌, ◌-◌, ◌%◌, ◌^◌, Bool, true, false, not, ◌||◌, ◌&&◌, ◌==◌, ltb, if◌then◌else◌,
  List, [], ◌∷◌, Option, none, some,
}
use picon.Tables.{MonitorData, at}
use picon.Load.Packet.{Delivery}
use picon.Load.Free.{monitor_data_free}
use picon.Session.{
  Options, Client, minus_one, Runs, ran, waits, faults, Session, returned, waiting, faulted,
  out_of_fuel, run_client, run_clients, monitor_load,
}

-- The environment variables that `main` looks for, and the number of its arguments.
pub record Invocation : Type 0 where
  pub ld_preload : Bool
  pub env_fd_client_to_monitor : Bool
  pub env_fd_monitor_to_client : Bool
  pub env_fd_loading_to_monitor : Bool
  pub env_fd_monitor_to_loading : Bool
  pub argc : ℕ
  pub env_sm_trace : Bool

-- What `fork` answers: to the parent, to the child, or an error.
pub data Forked : Type 0 where
  parent child failed : Forked

-- What the system does for the monitor: whether each of the four pipes is made, the answer of
-- `fork`, whether the program can be executed, whether SIGPIPE can be masked, what `data` holds
-- uninitialised, the packets of the loading pipe, the calls of `monitor_run`, and whether each
-- answer that is sent in advance is written.
pub record System : Type 0 where
  pub client_to_monitor_made : Bool
  pub monitor_to_client_made : Bool
  pub loading_to_monitor_made : Bool
  pub monitor_to_loading_made : Bool
  pub forked : Forked
  pub program_executes : Bool
  pub sigpipe_masked : Bool
  pub garbage : MonitorData
  pub event : ℕ
  pub deliveries : List Delivery
  pub clients : List Client
  pub answers : List Bool

-- How `main` ends: with a status before the fork or where it fails, as the process of the client,
-- as the monitor, or not.
pub data Ending : Type 0 where
  refused : ℕ → Ending
  becomes_client : Ending
  -- the status, and whether the client is killed
  monitored : ℕ → Bool → Ending
  waits_forever crashes lacks_fuel : Ending

-- `return -n;`, as a number of 32 bits
abbrev pub negative : ℕ → ℕ
negative n = 2 ^ 32 - n

-- `while((i < OPTION_nb_preload_monitor_ok_answers) && !err)`; where nothing is said of an answer,
-- it is written.
unfoldable pub preload_answers : ℕ → List Bool → ℕ
preload_answers zero written = 0
preload_answers (suc nb) [] = 0
preload_answers (suc nb) (true ∷ written) = preload_answers nb written
preload_answers (suc nb) (false ∷ written) = 1

-- `nb += data.modules[i].nb_entrypoint_finis`, over `rounds` modules from `i` on
unfoldable pub count_finis : ℕ → ℕ → ℕ → MonitorData → Option ℕ
count_finis zero i nb mon = some nb
count_finis (suc rounds) i nb mon = elim (at mon.modules i) [
  | none ↦ none
  | some m ↦ count_finis rounds (i + 1) ((nb + m.nb_entrypoint_finis) % 2 ^ 32) mon
]

-- The end of the monitor's process: the client is killed on an error, and the tables are freed.
unfoldable pub exit_monitor : ℕ → MonitorData → Ending
exit_monitor err mon = elim (monitor_data_free mon) [
  | none ↦ crashes
  | some mon' ↦ monitored err (not (err == 0))
]

module _ (options : Options) where
  -- From `main loop` on: the run of the program, then one for each fini function. The first number
  -- is what `err` holds before; it is overwritten.
  unfoldable pub run_program : ℕ → MonitorData → List Client → Runs
  run_program err₀ mon cs = elim (run_client options mon cs) [
    | waits ↦ waits
    | faults ↦ faults
    | ran err cs' ↦ elim (err == 0) [
      | false ↦ ran err cs'
      | true ↦ elim (count_finis mon.nb_modules 0 0 mon) [
        | none ↦ faults
        | some nb ↦ run_clients options nb mon cs'
      ]
    ]
  ]

  -- What follows `monitor_load`.
  unfoldable pub after_loading : List Bool → Session → Ending
  after_loading answers waiting = waits_forever
  after_loading answers faulted = crashes
  after_loading answers out_of_fuel = lacks_fuel
  after_loading answers (returned err mon cs) = elim (err == 0) [
    | false ↦ exit_monitor err mon
    | true ↦
        elim (run_program (preload_answers options.nb_preload_monitor_ok_answers answers) mon cs) [
          | waits ↦ waits_forever
          | faults ↦ crashes
          | ran err' cs' ↦ exit_monitor err' mon
        ]
  ]

  -- The process of the monitor after `fork`.
  unfoldable pub monitor_process : ℕ → System → Ending
  monitor_process fuel s = elim s.sigpipe_masked [
    | false ↦ exit_monitor minus_one s.garbage
    | true ↦ after_loading s.answers (monitor_load options fuel s.event s.deliveries s.clients)
  ]

-- The tests that precede the pipes.
abbrev pub is_inception : Invocation → Bool
is_inception v =
    v.env_fd_client_to_monitor || v.env_fd_monitor_to_client || v.env_fd_loading_to_monitor
    || v.env_fd_monitor_to_loading

abbrev pub makes_pipes : System → Bool
makes_pipes s =
    s.client_to_monitor_made && s.monitor_to_client_made && s.loading_to_monitor_made
    && s.monitor_to_loading_made

-- `fork`, and what each process does.
unfoldable pub fork_monitor : Options → ℕ → System → Ending
fork_monitor options fuel s = elim s.forked [
  | failed ↦ refused (negative 5)
  | child ↦ elim s.program_executes [ true ↦ becomes_client | false ↦ refused (negative 4) ]
  | parent ↦ monitor_process options fuel s
]

-- `main`; `options` are those that are built in, and CFI_TRACE in the environment turns traces on.
unfoldable pub main_of : Options → ℕ → Invocation → System → Ending
main_of options fuel v s =
    if v.ld_preload || is_inception v
    then refused (negative 1)
    else if ltb v.argc 2
    then refused (negative 2)
    else if not (makes_pipes s)
    then refused (negative 3)
    else fork_monitor (record options { sm_trace = v.env_sm_trace || options.sm_trace }) fuel s
