-- ===== src/Pass/Tests.antt =====
-- llvm_pass/CFI/CFI.cpp and CFIInjector.cpp, run on a module of two functions.
use picon.Base.{◌+◌, ◌≡◌, ◌≤◌, refl, true, false, List, [], ◌∷◌, ◌++◌, get_elem?, none, some, arith}
use picon.Load.Rows.{listed}
use picon.Injected.{cfi_enter, cfi_exit, cfi_call, cfi_returned, cfi_before_br, cfi_after_br}
use picon.Pass.{
  Name, other, direct_call, Block, Function, CfiFct, Cfi, FileEntry, get_identifier,
  identify_functions, read_function_ids, add_identified_function, identify_module,
  identify_function,
}
use picon.Pass.Files.{
  insert_id, add_transition, collect_calls, collect_block_calls, collect_functions, write_callgraph,
  write_allowed_bb_trans, write_blocks,
}
use picon.Pass.Inject.{
  Code, kept, inserted, InjectedBlock, inject_call, inject_instructions, inject_mcall,
  inject_bb_enter, inject_bb_leave, inject_mentry, inject_mexit, inject_blocks, inject_function,
  inject_code,
}
use picon.Pass.Layout.{inject_function-placed}
use picon.Pass.Jumps.{jumps_listed, program_jumps, jumps_listed-write_allowed_bb_trans}
use picon.Pass.Erased.{erased_blocks, erased_blocks-inject_function}
use picon.Pass.Announced.{program_calls}
use picon.Pass.CallsListed.{listed-write_callgraph}
use picon.Pass.Numbered.{IsNumbered}
use picon.Pass.FunctionIds.{
  flag_external, put_entry, read_old, write_function, write_functions, left_over,
  write_function_ids,
}
use picon.Pass.Roundtrip.{written_ids_reread}
use picon.Pass.FileIds.{IsFresh, file_ids_kept, identify_functions-IsNumbered}

-- "run" has two blocks: it calls "log", and ends. "log" is of another file, which gave it the id 7.
abbrev run : Name
run = 114 ∷ 117 ∷ 110 ∷ []

abbrev log : Name
log = 108 ∷ 111 ∷ 103 ∷ []

abbrev run_blocks : List Block
run_blocks =
    record { phis = []; body = other ∷ direct_call log false ∷ []; successors = 1 ∷ [] }
    ∷ record { phis = other ∷ []; body = other ∷ []; successors = [] }
    ∷ []

abbrev run_function : Function
run_function = record { name = run; is_intrinsic = false; blocks = run_blocks }

abbrev log_function : Function
log_function = record { name = log; is_intrinsic = false; blocks = [] }

abbrev functions : List Function
functions = run_function ∷ log_function ∷ []

-- Its flags are "External".
abbrev file : List FileEntry
file = record { fct_name = log; id = 7; flags = flag_external } ∷ []

abbrev new_cfi : Cfi
new_cfi = record {
  function_map = [];
  identified_functions = [];
  ignored_functions = [];
  init_functions = [];
  fini_functions = [];
  ignored_blocks_functions = [];
  fun_id_ctr = 0;
}

abbrev cfi : Cfi
cfi = record new_cfi {
  function_map = record { fun = log_function; id = 7 } ∷ record { fun = run_function; id = 8 } ∷ [];
  identified_functions = (run, 8) ∷ (log, 7) ∷ [];
  fun_id_ctr = 9;
}

abbrev run_fct : CfiFct
run_fct = record { fun = run_function; id = 8 }

identified : identify_functions new_cfi file functions ≡ some cfi
unfolding identify_functions read_function_ids add_identified_function identify_module
    identify_function
identified = refl

abbrev run_code : List InjectedBlock
run_code =
    record {
      phis = [];
      code =
          inserted (cfi_enter 8)
          ∷ kept other
          ∷ inserted (cfi_call 7)
          ∷ kept (direct_call log false)
          ∷ inserted (cfi_returned 7)
          ∷ inserted (cfi_before_br 8 0)
          ∷ [];
      successors = 1 ∷ [];
    }
    ∷ record {
      phis = other ∷ [];
      code = inserted (cfi_after_br 8 1) ∷ kept other ∷ inserted (cfi_exit 8) ∷ [];
      successors = [];
    }
    ∷ []

run_injected : inject_function cfi true run_fct ≡ some run_code
unfolding inject_function inject_mcall inject_instructions inject_call inject_blocks inject_bb_enter
    inject_bb_leave inject_mentry inject_mexit
run_injected = refl

injected : inject_code cfi true cfi.function_map ≡ some ((7, []) ∷ (8, run_code) ∷ [])
unfolding inject_code inject_function inject_mcall inject_instructions inject_call inject_blocks
    inject_bb_enter inject_bb_leave inject_mentry inject_mexit
injected = refl

graph_written : write_callgraph cfi ≡ some (record { source = 8; targets = 7 ∷ [] } ∷ [])
unfolding write_callgraph collect_functions collect_block_calls collect_calls add_transition
    insert_id
graph_written = refl

blocks_written :
    write_allowed_bb_trans cfi cfi.function_map
    ≡ record { fct_id = 8; num_bb = 2; transitions = record { source = 0; targets = 1 ∷ [] } ∷ [] }
      ∷ []
unfolding write_allowed_bb_trans write_blocks
blocks_written = refl

written :
    write_function_ids cfi run file
    ≡ some (
        record { fct_name = log; id = 7; flags = flag_external }
        ∷ record { fct_name = run; id = 8; flags = run }
        ∷ [])
unfolding write_function_ids write_functions write_function read_old put_entry left_over
written = refl

-- Witnesses.
erased_blocks-inject_function_example : erased_blocks run_code ≡ run_blocks
erased_blocks-inject_function_example =
    erased_blocks-inject_function cfi true run_fct run_code run_injected

listed-write_callgraph_example :
    listed (record { source = 8; targets = 7 ∷ [] } ∷ []) 8 7
    ≡ program_calls 8 7 ((7, []) ∷ (8, run_code) ∷ [])
listed-write_callgraph_example =
    listed-write_callgraph cfi true (record { source = 8; targets = 7 ∷ [] } ∷ [])
      ((7, []) ∷ (8, run_code) ∷ []) 8 7 graph_written injected

new_cfi-IsFresh : IsFresh new_cfi
new_cfi-IsFresh = record { no_functions = refl; no_map = refl }

file_ids_kept_example : get_identifier cfi log ≡ some 7
file_ids_kept_example =
    file_ids_kept new_cfi cfi file functions 8 new_cfi-IsFresh (omega arith) (omega arith, refl, tt)
      (omega arith) identified log 7 refl

identify_functions-IsNumbered_example : IsNumbered cfi × (cfi.fun_id_ctr ≤ 8 + 2)
identify_functions-IsNumbered_example =
    identify_functions-IsNumbered new_cfi cfi file functions 8 new_cfi-IsFresh (omega arith)
      (omega arith, refl, tt) (omega arith) identified

written_ids_reread_example :
    (lines : List FileEntry) × (write_function_ids cfi run file ≡ some lines)
    × ((next' : Cfi) × (read_function_ids new_cfi lines ≡ some next')
        × (get_identifier next' run ≡ get_identifier cfi run))
written_ids_reread_example =
    written_ids_reread new_cfi cfi new_cfi file functions 8 run run new_cfi-IsFresh (omega arith)
      (omega arith, refl, tt) (omega arith) identified new_cfi-IsFresh

inject_function-placed_example :
    (mid : List Code) × (inject_instructions cfi (other ∷ []) none ≡ some mid)
    × (get_elem? run_code 1
        ≡ some (record {
          phis = other ∷ [];
          code = inserted (cfi_after_br 8 1) ∷ mid ++ inserted (cfi_exit 8) ∷ [];
          successors = [];
        }))
inject_function-placed_example =
    inject_function-placed cfi run_fct run_code 1
      (record { phis = other ∷ []; body = other ∷ []; successors = [] }) refl refl run_injected refl

jumps_listed-write_allowed_bb_trans_example :
    jumps_listed (write_allowed_bb_trans cfi cfi.function_map) 8 2 0 1
    ≡ program_jumps cfi cfi.function_map 8 2 0 1
jumps_listed-write_allowed_bb_trans_example =
    jumps_listed-write_allowed_bb_trans cfi cfi.function_map 8 2 0 1
