-- ===== src/Program/Tests.antt =====
-- A run of the program of Program/Sample.
use picon.Base.{ℕ, zero, suc, ◌≡◌, refl, true, false, List, [], ◌∷◌, ◌++◌, map, none, some, arith}
use mathlib.Core.Path.{subst, sym}
use picon.Signal.{Signal, encode, decode, event_code}
use picon.Run.{Env}
use picon.Run.Linked.{StaysInPlace}
use picon.Run.Loop.{Round, finished, monitor_run}
use picon.Run.Whole.{AllServed, signals}
use picon.Run.Spec.{IsEntrypoint, Completes, idle}
use picon.Injected.{Event, cfi_enter, cfi_exit, cfi_call, cfi_returned, cfi_before_br, cfi_after_br}
use picon.Injected.Follows.{signal_of, signals_of}
use picon.Pass.{Name}
use picon.Pass.Files.{
  insert_id, add_transition, collect_calls, collect_block_calls, collect_functions, write_callgraph,
  write_allowed_bb_trans, write_blocks,
}
use picon.Pass.Inject.{
  inject_call, inject_instructions, inject_mcall, inject_bb_enter, inject_bb_leave, inject_mentry,
  inject_mexit, inject_blocks, inject_function, inject_code,
}
use picon.Program.{ModuleCode, CallSends, AreFollowed, AreBuilt}
use picon.Program.Allowed.{CallSends-Completes}
use picon.Program.Sample.{
  run, log, run_function, log_function, cfi, run_first_block, run_last_block, log_block, code,
  callgraph, jumps, run_data, module_table, tables, prog, run_ends, run_first, log_ends, log_first,
  calls_loaded, jumps_loaded, unlinked, linked,
}
use picon.Pass.{identify_functions, read_function_ids, identify_module, identify_function}
use picon.Pass.FunctionIds.{
  write_function_ids, write_functions, write_function, read_old, left_over,
}
use picon.Pass.Patch.{
  Globals, parse_annotations, patch_ctor_functions, patch_dtor_functions, patch_functions,
}
use picon.Pass.Postdom.{write_ipdom_to_file, write_ipds, post_dominator, common}
use picon.Pass.Compile.{
  Module, Files, Compiled, write_trans_to_file, analyse, write_module, run_on_module,
}
use picon.Program.Compiled.{IsCompiled, AreCompiled, AreCompiled-AreBuilt, compiled_not_stopped}

abbrev no_globals : Globals
no_globals = record {
  ctors = none;
  dtors = none;
  annotations = none;
  local_functions = [];
  hidden_functions = [];
}

-- No two blocks have a post-dominator.
abbrev source : Module
source = record {
  functions = run_function ∷ log_function ∷ [];
  globals = no_globals;
  trees = λ name a b. none;
}

-- The file of ids is "f", and the pass runs on the first module.
abbrev fctid_name : Name
fctid_name = 102 ∷ []

abbrev no_files : Files
no_files = record { fctid = []; trans = []; bbtrans = []; ipdom = [] }

abbrev result : Compiled
result = record {
  cfi = cfi;
  globals = no_globals;
  files = record {
    fctid =
        record { fct_name = log; id = 1; flags = fctid_name }
        ∷ record { fct_name = run; id = 0; flags = fctid_name }
        ∷ [];
    trans = callgraph;
    bbtrans = jumps;
    ipdom =
        record { fct_id = 1; block_id = 0; ipd = 0; last_block = 0 }
        ∷ record { fct_id = 0; block_id = 0; ipd = 1; last_block = 1 }
        ∷ record { fct_id = 0; block_id = 1; ipd = 0; last_block = 1 }
        ∷ [];
  };
  code = code;
}

returned : run_on_module true [] fctid_name source no_files ≡ some result
unfolding run_on_module analyse write_module parse_annotations identify_functions read_function_ids
    identify_module identify_function patch_ctor_functions patch_dtor_functions patch_functions
    write_trans_to_file write_callgraph collect_functions collect_block_calls collect_calls
    add_transition insert_id write_allowed_bb_trans write_blocks write_function_ids write_functions
    write_function read_old left_over write_ipdom_to_file write_ipds post_dominator common
    inject_code inject_function inject_mcall inject_instructions inject_call inject_blocks
    inject_bb_enter inject_bb_leave inject_mentry inject_mexit
returned = refl

followed : AreFollowed cfi cfi.function_map
followed = (
  refl,
  refl,
  record { ends_last = log_ends; first_unreached = log_first },
  (refl, refl, record { ends_last = run_ends; first_unreached = run_first }, tt),
)

module_compiled : IsCompiled prog tables 0 code
module_compiled = record {
  source = source;
  ignored = [];
  fctid_name = fctid_name;
  files = no_files;
  compiled = result;
  limit = 0;
  ids_differ = tt;
  room = omega arith;
  returned = returned;
  same_code = refl;
  is_followed = followed;
  callgraph = callgraph;
  calls_appended = refl;
  jumps = jumps;
  jumps_appended = refl;
  mdata = module_table;
  found = refl;
  calls_loaded = calls_loaded;
  jumps_loaded = jumps_loaded;
  unlinked = unlinked;
  linked = linked;
}

all_compiled :
    (m : ℕ) (code' : ModuleCode) → prog.code_of m ≡ some code' → IsCompiled prog tables m code'
all_compiled zero code' h = let same : code ≡ code' = ground arith in rw (← same) module_compiled
all_compiled (suc m) code' h = absurd (ground arith)

prog-AreCompiled : AreCompiled prog tables
prog-AreCompiled = record { compiled = all_compiled }

prog-AreBuilt : AreBuilt prog tables
prog-AreBuilt = AreCompiled-AreBuilt prog tables prog-AreCompiled

abbrev run_entrypoint : IsEntrypoint tables 0 0
run_entrypoint = record {
  mdata = module_table;
  fdata = run_data;
  found = refl;
  found_function = refl;
  entrypoint = refl;
}

abbrev send : Event → Signal
send e = signal_of 0 e

abbrev log_signals : List Signal
log_signals = signals_of 0 (cfi_enter 1 ∷ cfi_exit 1 ∷ [])

-- The signals of "run" in its first block, from its call on, after it, and in its last block.
abbrev back_signals : List Signal
back_signals = signals_of 0 (cfi_returned 1 ∷ cfi_before_br 0 0 ∷ [])

abbrev called_signals : List Signal
called_signals = log_signals ++ back_signals

abbrev first_signals : List Signal
first_signals = send (cfi_enter 0) ∷ send (cfi_call 1) ∷ called_signals

abbrev last_signals : List Signal
last_signals = signals_of 0 (cfi_after_br 0 1 ∷ cfi_exit 0 ∷ [])

abbrev run_signals : List Signal
run_signals = signals_of 0 (
    cfi_enter 0
    ∷ cfi_call 1
    ∷ cfi_enter 1
    ∷ cfi_exit 1
    ∷ cfi_returned 1
    ∷ cfi_before_br 0 0
    ∷ cfi_after_br 0 1
    ∷ cfi_exit 0
    ∷ [])

log_sends : CallSends prog 1 0 1 log_signals
log_sends = (
  code,
  0,
  log_block ∷ [],
  [],
  refl,
  refl,
  (log_block, refl, refl, (send (cfi_exit 1) ∷ [], refl, ([], refl, refl))),
)

run_sends : CallSends prog 2 0 0 run_signals
run_sends = (
  code,
  1,
  run_first_block ∷ run_last_block ∷ [],
  1 ∷ [],
  refl,
  refl,
  (
    run_first_block,
    refl,
    refl,
    (
      first_signals,
      last_signals,
      refl,
      (
        send (cfi_call 1) ∷ called_signals,
        refl,
        (
          called_signals,
          refl,
          (
            log_signals,
            back_signals,
            refl,
            log_sends,
            (send (cfi_before_br 0 0) ∷ [], refl, ([], refl, refl)),
          ),
        ),
      ),
      (run_last_block, refl, refl, (send (cfi_exit 0) ∷ [], refl, ([], refl, refl))),
    ),
  ),
)

-- A run of the monitor that reads these signals.
abbrev served : Signal → Round
served s = record { in_time = true; packet = encode s; written = true }

abbrev rounds : List Round
rounds = map served run_signals

abbrev env : Env
env = record {
  sm_trace = false;
  timeout = false;
  program = tables;
  calls_calloc = some 1000;
  blocks_calloc = some 9000;
  calls_realloc = λ old n. some old;
  blocks_realloc = λ old n. some old;
}

env_stays : StaysInPlace env
env_stays = record { calls_stay = λ old n. refl; blocks_stay = λ old n. refl }

rounds_served : AllServed rounds
unfolding encode
rounds_served = ground arith

rounds_signals : signals rounds ≡ run_signals
unfolding encode decode event_code
rounds_signals = refl

rounds_sent : CallSends prog 2 0 0 (signals rounds)
rounds_sent = subst (CallSends prog 2 0 0) (sym rounds_signals) run_sends

CallSends-Completes_example : Completes tables idle run_signals
CallSends-Completes_example =
    CallSends-Completes prog tables prog-AreBuilt 2 0 0 run_signals (omega arith) run_entrypoint
      (omega arith) run_sends

compiled_not_stopped_example : monitor_run env (send (cfi_exit 7)) rounds ≡ finished 0
compiled_not_stopped_example =
    compiled_not_stopped prog env 2 0 0 (send (cfi_exit 7)) rounds 1000 9000 prog-AreCompiled
      (omega arith) run_entrypoint (omega arith) rounds_sent env_stays refl refl refl (omega arith)
      (omega arith) rounds_served
