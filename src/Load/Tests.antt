-- ===== src/Load/Tests.antt =====
-- The sections of a module of two functions: `main`, which has two blocks, and `f`, which `main`
-- calls.
use picon.Base.{◌<◌, ℕ, ◌≡◌, refl, Bool, true, List, [], ◌∷◌, ◌++◌, none, some, arith}
use picon.Tables.{
  FunctionData, ModuleData, MonitorData, Matrix, at, fct_external, fct_internal, fct_main,
}
use picon.Load.Cursor.{u32_bytes}
use picon.Load.Functions.{load_section_function_id, zero_function}
use picon.Load.Transitions.{load_section_function_transition}
use picon.Load.Blocks.{put_function, load_section_block_transition}
use picon.Load.Rows.{Entry, entries_bytes, listed, allows}
use picon.Load.PutFunctions.{Function, functions_bytes, AreFunctions}
use picon.Load.Relocations.{
  compute_relocations_of_module, relocate, search_modules, search_functions,
}
use picon.Load.Search.{Resolves}
use picon.Load.Resolved.{relocations_resolved}
use picon.Ids.{module_function}
use picon.Load.CallGraph.{call_graph_exact}
use picon.Load.FlowGraph.{HasFlow, flow_graph_exact}
use picon.Load.FunctionTable.{HoldsFunctions, function_table_exact}

abbrev always : ℕ → Bool
always k = true

abbrev empty_module : ModuleData
empty_module = record {
  nb_functions = 0;
  nb_entrypoint_inits = 0;
  nb_entrypoint_finis = 0;
  call_graph = none;
  relocations = none;
  functions = none;
}

abbrev two_functions : List Function
two_functions =
    record { f_id = 1; f_flags = fct_internal; f_name = b'f' ∷ [] }
    ∷ record { f_id = 0; f_flags = fct_main; f_name = b'm' ∷ [] }
    ∷ []

two_functions-AreFunctions : AreFunctions 2 two_functions
two_functions-AreFunctions = (
  omega arith,
  omega arith,
  (λ e. omega arith, tt),
  (omega arith, omega arith, (λ e. omega arith, tt), tt),
)

function_table_exact_example :
    (m' : ModuleData) × (load_section_function_id always
        (u32_bytes 2 ++ functions_bytes two_functions [])
        empty_module
      ≡ some (0, m'))
    × HoldsFunctions two_functions m'
function_table_exact_example =
    function_table_exact always (λ k. refl) empty_module two_functions [] refl refl refl
      (omega arith) two_functions-AreFunctions

-- The module once its functions are known.
abbrev named_module : ModuleData
named_module = record {
  nb_functions = 2;
  nb_entrypoint_inits = 0;
  nb_entrypoint_finis = 0;
  call_graph = some (none ∷ none ∷ []);
  relocations = some (0 ∷ 0 ∷ []);
  functions = some (
      record zero_function { name = some (b'm' ∷ []); flags = fct_main }
      ∷ record zero_function { name = some (b'f' ∷ []) }
      ∷ []);
}

abbrev one_call : List Entry
one_call = record { source = 0; targets = 1 ∷ [] } ∷ []

call_graph_exact_example :
    (p : Matrix) × (load_section_function_transition always
        (u32_bytes 1 ++ entries_bytes one_call [])
        named_module
      ≡ some (0, record named_module { call_graph = p }))
    × ((caller callee : ℕ) → allows p caller callee ≡ listed one_call caller callee)
call_graph_exact_example =
    call_graph_exact always (λ k. refl) named_module one_call [] (omega arith) (omega arith) refl
      (omega arith) (omega arith, omega arith, (omega arith, tt), tt) (tt, tt)

-- Block 0 is listed twice.
abbrev two_jumps : List Entry
two_jumps = record { source = 0; targets = 1 ∷ [] } ∷ record { source = 0; targets = 0 ∷ [] } ∷ []

abbrev named_main : FunctionData
named_main = record zero_function { name = some (b'm' ∷ []); flags = fct_main }

flow_graph_exact_example :
    (fd' : FunctionData) × (load_section_block_transition always
        (u32_bytes 0 ++ (u32_bytes 2 ++ (u32_bytes 2 ++ entries_bytes two_jumps [])))
        named_module
      ≡ some (0, put_function named_module 0 fd'))
    × HasFlow named_main fd' 2 two_jumps
flow_graph_exact_example =
    flow_graph_exact always (λ k. refl) named_module 0 2 named_main two_jumps [] (omega arith)
      (omega arith) refl refl (omega arith) (omega arith) (omega arith)
      (
        omega arith,
        omega arith,
        (omega arith, tt),
        (omega arith, omega arith, (omega arith, tt), tt),
      )

abbrev external_f : FunctionData
external_f = record zero_function { name = some (b'f' ∷ []); flags = fct_external }

-- A module that uses the `f` of the module above.
abbrev user_module : ModuleData
user_module = record {
  nb_functions = 1;
  nb_entrypoint_inits = 0;
  nb_entrypoint_finis = 0;
  call_graph = some (none ∷ []);
  relocations = some (0 ∷ []);
  functions = some (external_f ∷ []);
}

abbrev two_modules : MonitorData
two_modules = record { nb_modules = 2; modules = some (user_module ∷ named_module ∷ []) }

abbrev relocated_modules : MonitorData
relocated_modules = record {
  nb_modules = 2;
  modules =
      some
        (record user_module { relocations = some (module_function 1 1 ∷ []) } ∷ named_module ∷ []);
}

modules_relocated : compute_relocations_of_module two_modules 0 true ≡ some (0, relocated_modules)
unfolding compute_relocations_of_module relocate search_modules search_functions
modules_relocated = refl

relocations_resolved_example :
    (mi' : ModuleData) × (k : ℕ) × (l : ℕ) × (at relocated_modules.modules 0 ≡ some mi')
    × (mi'.functions ≡ user_module.functions)
    × (at mi'.relocations 0 ≡ some (module_function k l))
    × (k < 2)
    × Resolves two_modules 0 (b'f' ∷ []) k l
relocations_resolved_example =
    relocations_resolved two_modules relocated_modules 0 user_module refl modules_relocated 0
      external_f (b'f' ∷ []) (omega arith) refl refl refl
