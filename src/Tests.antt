-- ===== src/Tests.antt =====
-- A small program, and the theorems at it: `main` jumps from its block 0 to its block 1, calls a
-- function of the same module and exits.
use picon.Base.{
  ℕ, ◌≤◌, ◌≡◌, ◌++◌, length, refl, true, false, List, [], ◌∷◌, Option, none, some, arith, inl, map,
  replicate,
}
use picon.Ids.{module_function, get_module, get_function}
use picon.Ids.Packing.{packing_roundtrip}
use picon.Signal.{
  Signal, ClientEvent, before_jump, after_jump, call, enter, exit, returned, event_code, event_of,
  encode, decode, read_signal,
}
use picon.Signal.Codec.{read_signal-encode}
use picon.Stack
use picon.Stack.{Stack, load, push, pop, extend, write, regrow}
use picon.Stack.Laws.{IsValid, pop-push}
use picon.Stack.Moved.{push_faults_when_moved}
use picon.Tables.{FunctionData, ModuleData, fct_main, fct_internal}
use picon.Run.{
  Env, Monitor, proceed, leave, ready, handle, in_function, on_before_jump, on_after_jump, on_call,
  on_enter, on_exit, on_returned, call_target, save_frame, save_blocks, trace_jump, on_return,
  on_last_exit, restore_blocks,
}
use picon.Run.Loop.{Round, finished, monitor_run, loop, run_exit, read_and_handle, start}
use picon.Injected.{
  Injected, cfi_enter, running, prepare, send_monitor, answer_of, resumed, exchange, run_events,
}
use picon.Injected.Follows.{Follows, step, stop, signals_of}
use picon.Injected.World.{World, before, written, Interleaved, begin, writes, passes, serves}
use picon.Injected.Ahead.{all_but_ahead-Allowed}
use picon.Injected.Traces.{Allowed}
use picon.Injected.{Event, cfi_exit, cfi_ok}
use picon.Injected.Together.{allowed_events_pass}
use picon.Run.Spec.{starts, Frame, idle, Step, Completes}
use picon.Run.Simulation.{handle_sound}
use picon.Run.Linked.{StaysInPlace, Linked, view}
use picon.CallStack.{CallStack, no_call}
use picon.Run.Phases.{Moves, handle-Moves, repeated_signal_refused, end_of_file_ends_run}
use picon.Run.Whole.{AllServed, IsLive, signals, monitor_run_sound, monitor_run_complete}

abbrev main_data : FunctionData
main_data = record {
  name = some (b'm' ∷ []);
  flags = fct_main;
  nb_blocks = 2;
  control_flow_graph = some (some (0 ∷ 1 ∷ []) ∷ none ∷ []);
  immediate_post_dominator = some (0 ∷ 0 ∷ []);
}

abbrev callee_data : FunctionData
callee_data = record {
  name = some (b'f' ∷ []);
  flags = fct_internal;
  nb_blocks = 0;
  control_flow_graph = none;
  immediate_post_dominator = none;
}

abbrev small_module : ModuleData
small_module = record {
  nb_functions = 2;
  nb_entrypoint_inits = 0;
  nb_entrypoint_finis = 0;
  call_graph = some (some (0 ∷ 1 ∷ []) ∷ none ∷ []);
  relocations = some (0 ∷ 0 ∷ []);
  functions = some (main_data ∷ callee_data ∷ []);
}

abbrev small_env : Env
small_env = record {
  sm_trace = false;
  timeout = false;
  program = record { nb_modules = 1; modules = some (small_module ∷ []) };
  calls_calloc = some 1000;
  blocks_calloc = some 9000;
  calls_realloc = λ old n. some old;
  blocks_realloc = λ old n. some old;
}

abbrev sent : ClientEvent → ℕ → ℕ → Signal
sent e f b = record { event = event_code e; module_id = 0; function_id = f; block_id = b }

abbrev round_of : Signal → Round
round_of s = record { in_time = true; packet = encode s; written = true }

abbrev rubbish : Signal
rubbish = record { event = 77; module_id = 0; function_id = 0; block_id = 0 }

abbrev small_run : List Round
small_run = map round_of (
    sent enter 0 0
    ∷ sent before_jump 0 0
    ∷ sent after_jump 0 1
    ∷ sent call 1 0
    ∷ sent enter 1 0
    ∷ sent exit 1 0
    ∷ sent returned 1 0
    ∷ sent exit 0 0
    ∷ [])

small_stays : StaysInPlace small_env
small_stays = record { calls_stay = λ old n. refl; blocks_stay = λ old n. refl }

small-IsLive : IsLive small_env
small-IsLive = record { calls_live = λ b e. ground arith; blocks_live = λ b e. ground arith }

small_run_returns : monitor_run small_env rubbish small_run ≡ finished 0
unfolding monitor_run loop read_and_handle run_exit handle on_before_jump on_after_jump on_call
    on_enter on_exit on_returned call_target save_frame save_blocks trace_jump on_return
    on_last_exit restore_blocks read_signal encode decode event_code event_of push pop write extend
    Stack.init
small_run_returns = refl

monitor_run_sound_example : Completes small_env.program idle (signals small_run)
unfolding encode
monitor_run_sound_example =
    monitor_run_sound small_env rubbish small_run small_stays small-IsLive (omega arith)
      small_run_returns

packing_roundtrip_example :
    (get_module (module_function 3 70_000) ≡ 3) × (get_function (module_function 3 70_000) ≡ 70_000)
packing_roundtrip_example = packing_roundtrip 3 70_000 (omega arith) (omega arith)

read_signal-encode_example : read_signal (encode (sent call 1 0)) (0, rubbish) ≡ (0, sent call 1 0)
unfolding event_code
read_signal-encode_example = read_signal-encode (sent call 1 0) rubbish 0 (omega arith)

small_run_served : AllServed small_run
unfolding encode
small_run_served = ground arith

monitor_run_complete_example : monitor_run small_env rubbish small_run ≡ finished 0
unfolding encode
monitor_run_complete_example =
    monitor_run_complete small_env small_stays refl rubbish small_run 1000 9000 refl refl
      (omega arith) (omega arith) small_run_served monitor_run_sound_example

-- A stack of two cells, both in use.
abbrev full_stack : Stack ℕ
full_stack = record { base = 10; cells = 1 ∷ 2 ∷ []; first = 10; last = 11; top = 11 }

full_stack-IsValid : IsValid full_stack
full_stack-IsValid = omega arith

abbrev stay : ℕ → ℕ → Option ℕ
stay old n = some old

abbrev move_to : ℕ → ℕ → ℕ → Option ℕ
move_to b old n = some b

pop-push_example :
    (s₁ s₂ : Stack ℕ) × (push 2 0 stay 3 (0, full_stack) ≡ some (0, s₁))
    × (pop s₁ ≡ some (3, s₂))
    × IsValid s₂
    × (s₂.top ≡ 11)
    × ((ptr : ℕ) → ptr ≤ 11 → load s₂ ptr ≡ load full_stack ptr)
pop-push_example = pop-push 2 0 stay 3 full_stack (omega arith) (λ old n. refl) full_stack-IsValid

push_faults_when_moved_example : push 2 0 (move_to 500) 3 (0, full_stack) ≡ none
push_faults_when_moved_example =
    push_faults_when_moved 2 0 (move_to 500) 3 full_stack 500 full_stack-IsValid refl refl
      (inl (omega arith))

abbrev empty_calls : CallStack
empty_calls = record {
  base = 1000;
  cells = replicate 512 no_call;
  first = 1000;
  last = 1511;
  top = 999;
}

abbrev empty_blocks : Stack ℕ
empty_blocks = record {
  base = 9000;
  cells = replicate 4096 0;
  first = 9000;
  last = 13095;
  top = 8999;
}

abbrev closed : Round
closed = record { in_time = true; packet = []; written = true }

-- The run after the first ENTER of the small program.
abbrev entered : Monitor
entered = record (start empty_calls empty_blocks) {
  state = in_function;
  current_module_data = some small_module;
  current_function_data = some main_data;
}

first_enter_accepted :
    handle small_env (start empty_calls empty_blocks) (sent enter 0 0) true ≡ proceed entered
unfolding handle on_enter event_code event_of
first_enter_accepted = refl

repeated_signal_refused_example :
    handle small_env (record entered { error = 1 }) (sent enter 0 0) true
    ≡ leave (record entered { error = 4 })
repeated_signal_refused_example =
    repeated_signal_refused small_env (start empty_calls empty_blocks) entered (sent enter 0 0) true
      true 1 first_enter_accepted

handle-Moves_example :
    (e : ClientEvent) × (event_of (event_code enter) ≡ some e) × Moves e ready in_function
handle-Moves_example =
    handle-Moves small_env (start empty_calls empty_blocks) (sent enter 0 0) true entered
      first_enter_accepted

end_of_file_ends_run_example : loop small_env entered (sent enter 0 0) (closed ∷ []) ≡ finished 4
unfolding event_code
end_of_file_ends_run_example =
    end_of_file_ends_run small_env (start empty_calls empty_blocks) entered (sent enter 0 0) true
      closed [] refl (omega arith) first_enter_accepted refl refl refl

empty-Linked : Linked small_env (start empty_calls empty_blocks) []
empty-Linked = record {
  mdata_same = λ h. absurd (h refl);
  fdata_same = λ h. absurd (h refl);
  no_error = refl;
  calls_valid = omega arith;
  blocks_valid = omega arith;
  frames = omega arith;
}

handle_sound_example :
    (fs : List Frame) × Step small_env.program
      (sent enter 0 0)
      (view (start empty_calls empty_blocks) [])
      (view entered fs)
    × Linked small_env entered fs
handle_sound_example =
    handle_sound small_env (start empty_calls empty_blocks) (sent enter 0 0) true small_stays []
      empty-Linked entered first_enter_accepted

-- A client of module 0 that enters `main`.
abbrev small_client : Injected
small_client = record {
  fd_client_to_monitor = 4;
  fd_monitor_to_client = 5;
  cs = record { event = 0; module_id = 0; function_id = 0; block_id = 0 };
}

abbrev entered_client : Injected
entered_client = record small_client { cs = sent enter 0 0 }

small_client_enters :
    run_events small_env (cfi_enter 0 ∷ []) (start empty_calls empty_blocks) rubbish small_client
    ≡ running entered (sent enter 0 0) entered_client
unfolding run_events exchange resumed send_monitor answer_of prepare handle on_enter event_code
    event_of encode decode read_signal
small_client_enters = refl

small-Follows :
    Follows small_env.program
      (view entered [])
      (view (start empty_calls empty_blocks) [])
      (sent enter 0 0 ∷ [])
unfolding event_code event_of
small-Follows =
    step
      (starts refl refl (omega arith)
        (record {
          mdata = small_module;
          fdata = main_data;
          found = refl;
          found_function = refl;
          entrypoint = refl;
        })
        (omega arith))
      stop

allowed_events_pass_example :
    (m' : Monitor) × (sig' : Signal) × (st' : Injected) × (fs' : List Frame) × (run_events small_env
        (cfi_enter 0 ∷ [])
        (start empty_calls empty_blocks)
        rubbish
        small_client
      ≡ running m' sig' st')
    × (view entered [] ≡ view m' fs')
    × Linked small_env m' fs'
allowed_events_pass_example =
    allowed_events_pass small_env small_stays (cfi_enter 0 ∷ []) (start empty_calls empty_blocks)
      rubbish small_client [] (view entered []) refl empty-Linked (omega arith) (omega arith, tt)
      small-Follows

-- One answer is sent in advance: the client enters "main", gets past the call, and leaves "main"
-- before the monitor has read the second signal.
abbrev begun : World
begun = before small_client (start empty_calls empty_blocks) rubbish 1

abbrev entering : World
entering = written (cfi_enter 0) begun

abbrev past_enter : World
past_enter = record entering { waits = false; answers = [] }

abbrev enter_handled : World
enter_handled = record past_enter {
  monitor = some entered;
  last_signal = sent enter 0 0;
  packets = [];
  answers = cfi_ok ∷ [];
}

abbrev leaving : World
leaving = written (cfi_exit 0) enter_handled

abbrev past_exit : World
past_exit = record leaving { waits = false; answers = [] }

interleaved : Interleaved small_env begun past_exit (cfi_enter 0 ∷ cfi_exit 0 ∷ [])
unfolding prepare send_monitor answer_of handle on_enter event_code event_of encode decode
    read_signal
interleaved =
    passes (cfi_ok ∷ []) []
      (writes (cfi_exit 0)
        (serves (start empty_calls empty_blocks) (encode (sent enter 0 0)) [] (proceed entered)
          (passes (cfi_ok ∷ []) [] (writes (cfi_enter 0) begin refl) refl refl refl) refl refl refl)
        refl)
      refl refl refl

all_but_ahead-Allowed_example :
    (done : List Event) × (ahead : List Event) × (cfi_enter 0 ∷ cfi_exit 0 ∷ [] ≡ done ++ ahead)
    × (length ahead ≤ 1)
    × Allowed small_env.program (view (start empty_calls empty_blocks) []) (signals_of 0 done)
all_but_ahead-Allowed_example =
    all_but_ahead-Allowed small_env (start empty_calls empty_blocks) rubbish small_client [] 1
      past_exit (cfi_enter 0 ∷ cfi_exit 0 ∷ []) small_stays empty-Linked (omega arith)
      (omega arith, (omega arith, tt)) interleaved refl
