-- ===== src/Main/Tests.antt =====
-- A whole session: a module of one function is loaded, the function is run, and the monitor exits.
use picon.Load.Rule.{All}
use picon.Base.{
  Bool, suc, ◌==◌, ℕ, ◌≡◌, ◌≢◌, refl, true, false, List, [], ◌∷◌, ◌++◌, length, none, some, arith,
  ◌%◌, ◌^◌,
}
use picon.Signal.{
  Signal, ClientEvent, enter, exit, event_code, event_of, encode, decode, read_signal,
}
use picon.Tables.{ModuleData, MonitorData}
use picon.Stack
use picon.Stack.{push, pop, extend, write, regrow}
use picon.Load.Cursor.{u32_bytes, read_u32-bytes, read_u32, read_name}
use picon.Main.Faults.{one_module_of, failed_allocation_faults}
use picon.Load.Functions.{set_function, load_functions, allocate_module, load_section_function_id}
use picon.Load.Packet.{Delivery, read_value, read_loading_packet, free_loading_packet}
use picon.Load.Module.{
  fresh_module, begin_module, load_section, handle_section, leave_loading, load_sections,
  monitor_load_module,
}
use picon.Load.Relocations.{
  compute_relocations_of_module, relocate, search_modules, search_functions,
}
use picon.Load.Free.{
  free_row, free_rows, free_function, free_functions, free_modules, monitor_data_free,
}
use picon.Load.Whole.{IsWhole}
use picon.Load.SessionTests.{packet, one_module, one_loaded}
use picon.Run.{handle, on_enter, on_exit, on_last_exit}
use picon.Run.Loop.{Round, monitor_run, loop, run_exit, read_and_handle}
use picon.Session.{
  Options, Client, ran, returned, out_of_fuel, run_client, run_clients, relocate_all,
  finish_loading, start_module, load_modules, monitor_load,
}
use picon.Session.Rule.{monitor_load_terminates}
use picon.Session.Whole.{Allocates, session_freed}
use picon.Session.Row.{IsSteady, Walks}
use picon.Main.{
  Invocation, System, monitored, parent, count_finis, exit_monitor, run_program, after_loading,
  monitor_process, preload_answers, fork_monitor, main_of,
}
use picon.Main.Sound.{options_of, total_finis, main_sound}

abbrev options : Options
options = record { sm_trace = false; timeout = false; nb_preload_monitor_ok_answers = 0 }

abbrev sent : ClientEvent → Signal
sent e = record { event = event_code e; module_id = 0; function_id = 0; block_id = 0 }

abbrev round_of : Signal → Round
round_of s = record { in_time = true; packet = encode s; written = true }

abbrev client : Client
client = record {
  uninitialised = sent enter;
  rounds = round_of (sent enter) ∷ round_of (sent exit) ∷ [];
  calls_calloc = some 1000;
  blocks_calloc = some 9000;
  calls_realloc = λ old n. some old;
  blocks_realloc = λ old n. some old;
}

abbrev deliveries : List Delivery
deliveries = one_module ++ packet 6 0 [] ∷ []

client-IsSteady : IsSteady client
unfolding encode
client-IsSteady = record {
  calls_stay = λ old n. refl;
  blocks_stay = λ old n. refl;
  calls_live = λ b e. ground arith;
  blocks_live = λ b e. ground arith;
  packets_whole = omega arith;
}

monitor_load_terminates_example : monitor_load options 5 0 deliveries (client ∷ []) ≢ out_of_fuel
monitor_load_terminates_example =
    monitor_load_terminates options 5 0 deliveries (client ∷ []) (omega arith)

session_loaded :
    monitor_load options 5 0 deliveries (client ∷ []) ≡ returned 0 one_loaded (client ∷ [])
unfolding monitor_load load_modules start_module finish_loading relocate_all run_clients
    monitor_load_module load_sections leave_loading handle_section load_section begin_module
    read_loading_packet read_value free_loading_packet load_section_function_id allocate_module
    load_functions set_function read_u32 read_name compute_relocations_of_module relocate
    search_modules search_functions
session_loaded = refl

packet-Allocates : (event size : ℕ) (value : List ℕ) → Allocates (packet event size value)
packet-Allocates event size value = record {
  modules_allocate = refl;
  sections_allocate = λ k. refl;
}

session_freed_example :
    (IsWhole one_loaded)
    × ((mon' : MonitorData) × (monitor_data_free one_loaded ≡ some mon') × (mon'.nb_modules ≡ 0))
session_freed_example =
    session_freed options 5 0 deliveries (client ∷ []) (client ∷ []) 0 one_loaded (omega arith)
      (
        packet-Allocates 0 4 _,
        (packet-Allocates 1 14 _, (packet-Allocates 5 0 _, (packet-Allocates 6 0 _, tt))),
      )
      session_loaded

abbrev invocation : Invocation
invocation = record {
  ld_preload = false;
  env_fd_client_to_monitor = false;
  env_fd_monitor_to_client = false;
  env_fd_loading_to_monitor = false;
  env_fd_monitor_to_loading = false;
  argc = 2;
  env_sm_trace = false;
}

abbrev system : System
system = record {
  client_to_monitor_made = true;
  monitor_to_client_made = true;
  loading_to_monitor_made = true;
  monitor_to_loading_made = true;
  forked = parent;
  program_executes = true;
  sigpipe_masked = true;
  garbage = one_loaded;
  event = 0;
  deliveries = deliveries;
  clients = client ∷ [];
  answers = [];
}

client_returns : run_client options one_loaded (client ∷ []) ≡ ran 0 []
unfolding run_client monitor_run loop read_and_handle run_exit handle on_enter on_exit on_last_exit
    read_signal encode decode event_code event_of push pop write extend Stack.init
client_returns = refl

main_exits : main_of options 5 invocation system ≡ monitored 0 false
unfolding main_of fork_monitor monitor_process after_loading run_program exit_monitor count_finis
    run_clients preload_answers monitor_data_free free_modules free_functions free_function free_row
    free_rows
main_exits =
    rw
      (
        main_of, fork_monitor, monitor_process, session_loaded, after_loading, run_program,
        client_returns,
      )
      refl

main_sound_example :
    (mon : MonitorData) × (cs : List Client) × (monitor_load
        (options_of options invocation)
        5
        0
        deliveries
        (client ∷ [])
      ≡ returned 0 mon cs)
    × (◌≡◌ {A = Bool} false false)
    × ((done : List Client) × (cs' : List Client) × (cs ≡ done ++ cs')
        × (length done ≡ suc (total_finis mon % 2 ^ 32))
        × All (Walks mon) done)
main_sound_example = main_sound options 5 invocation system false (client-IsSteady, tt) main_exits

failed_allocation_faults_example :
    (m : ModuleData) × (load_section_function_id (λ k. k == 0) (u32_bytes 3) fresh_module
      ≡ some (2, m))
    × (m.nb_functions ≡ 3)
    × (monitor_data_free (one_module_of m) ≡ none)
failed_allocation_faults_example =
    failed_allocation_faults (λ k. k == 0) (u32_bytes 3) [] 2 refl
      (read_u32-bytes 3 [] (omega arith))
