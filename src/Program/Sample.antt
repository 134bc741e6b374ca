-- ===== src/Program/Sample.antt =====
-- A program of one module, compiled: "run" jumps from its first block to its second one, and
-- calls "log" in the first one.
use picon.Base.{
  ℕ, zero, suc, ◌+◌, ◌<◌, ◌≡◌, ◌↔◌, refl, true, false, List, [], ◌∷◌, Option, none, some,
  Bool-cases, inl, inr, arith, get_elem?, length,
}
use picon.Tables.{MonitorData, ModuleData, FunctionData, fct_main, fct_internal, at}
use picon.Load.Rows.{Entry, listed, occurs}
use picon.Load.Relocations.{same_name}
use picon.Run.Spec.{HasEdge, Target, internal}
use picon.Injected.{cfi_enter, cfi_exit, cfi_call, cfi_returned, cfi_before_br, cfi_after_br}
use picon.Pass.{
  Name, Instruction, invoke, inline_asm, indirect_call, other, direct_call, Block, Cfi, Function,
}
use picon.Pass.Files.{FunctionBlocks}
use picon.Pass.Inject.{kept, inserted, InjectedBlock, inject_call}
use picon.Pass.Jumps.{jumps_listed}
use picon.Program.{Program, ModuleCode}

abbrev pub run : Name
run = 114 ∷ []

abbrev pub log : Name
log = 108 ∷ []

abbrev pub run_blocks : List Block
run_blocks =
    record { phis = []; body = other ∷ direct_call log false ∷ []; successors = 1 ∷ [] }
    ∷ record { phis = []; body = other ∷ []; successors = [] }
    ∷ []

abbrev pub log_blocks : List Block
log_blocks = record { phis = []; body = other ∷ []; successors = [] } ∷ []

abbrev pub run_function : Function
run_function = record { name = run; is_intrinsic = false; blocks = run_blocks }

abbrev pub log_function : Function
log_function = record { name = log; is_intrinsic = false; blocks = log_blocks }

abbrev pub cfi : Cfi
cfi = record {
  function_map = record { fun = log_function; id = 1 } ∷ record { fun = run_function; id = 0 } ∷ [];
  identified_functions = (log, 1) ∷ (run, 0) ∷ [];
  ignored_functions = [];
  init_functions = [];
  fini_functions = [];
  ignored_blocks_functions = [];
  fun_id_ctr = 2;
}

abbrev pub run_first_block : InjectedBlock
run_first_block = record {
  phis = [];
  code =
      inserted (cfi_enter 0)
      ∷ kept other
      ∷ inserted (cfi_call 1)
      ∷ kept (direct_call log false)
      ∷ inserted (cfi_returned 1)
      ∷ inserted (cfi_before_br 0 0)
      ∷ [];
  successors = 1 ∷ [];
}

abbrev pub run_last_block : InjectedBlock
run_last_block = record {
  phis = [];
  code = inserted (cfi_after_br 0 1) ∷ kept other ∷ inserted (cfi_exit 0) ∷ [];
  successors = [];
}

abbrev pub log_block : InjectedBlock
log_block = record {
  phis = [];
  code = inserted (cfi_enter 1) ∷ kept other ∷ inserted (cfi_exit 1) ∷ [];
  successors = [];
}

abbrev pub code : ModuleCode
code = (1, log_block ∷ []) ∷ (0, run_first_block ∷ run_last_block ∷ []) ∷ []

abbrev pub callgraph : List Entry
callgraph = record { source = 0; targets = 1 ∷ [] } ∷ []

abbrev pub jumps : List FunctionBlocks
jumps =
    record { fct_id = 1; num_bb = 1; transitions = [] }
    ∷ record { fct_id = 0; num_bb = 2; transitions = record { source = 0; targets = 1 ∷ [] } ∷ [] }
    ∷ []

abbrev pub run_data : FunctionData
run_data = record {
  name = some run;
  flags = fct_main;
  nb_blocks = 2;
  control_flow_graph = some (some (0 ∷ 1 ∷ []) ∷ none ∷ []);
  immediate_post_dominator = some (0 ∷ 0 ∷ []);
}

abbrev pub log_data : FunctionData
log_data = record {
  name = some log;
  flags = fct_internal;
  nb_blocks = 0;
  control_flow_graph = none;
  immediate_post_dominator = none;
}

abbrev pub module_table : ModuleData
module_table = record {
  nb_functions = 2;
  nb_entrypoint_inits = 0;
  nb_entrypoint_finis = 0;
  call_graph = some (some (0 ∷ 1 ∷ []) ∷ none ∷ []);
  relocations = some (0 ∷ 0 ∷ []);
  functions = some (run_data ∷ log_data ∷ []);
}

abbrev pub tables : MonitorData
tables = record { nb_modules = 1; modules = some (module_table ∷ []) }

-- The functions that instructions call.
abbrev pub callee : Instruction → Option (ℕ × ℕ)
callee (direct_call name false) = elim (same_name log name) [
  | true ↦ some (0, 1)
  | false ↦ elim (same_name run name) [ true ↦ some (0, 0) | false ↦ none ]
]
callee _ = none

abbrev pub code_of : ℕ → Option ModuleCode
code_of zero = some code
code_of (suc m) = none

abbrev pub prog : Program
prog = record { code_of = code_of; callee = λ m i. callee i }

pub run_ends :
    (k : ℕ) (b : Block)
    → get_elem? run_blocks k ≡ some b
    → (b.successors ≡ []) ↔ (k + 1 ≡ length run_blocks)
run_ends zero b h = (λ e. absurd (ground arith), λ e. absurd (omega (arith, e)))
run_ends (suc zero) b h = (λ e. omega arith, λ e. ground arith)
run_ends (suc (suc k)) b h = absurd (ground arith)

pub run_first :
    (k : ℕ) (b : Block) → get_elem? run_blocks k ≡ some b → occurs 0 b.successors ≡ false
run_first zero b h = ground arith
run_first (suc zero) b h = ground arith
run_first (suc (suc k)) b h = absurd (ground arith)

pub log_ends :
    (k : ℕ) (b : Block)
    → get_elem? log_blocks k ≡ some b
    → (b.successors ≡ []) ↔ (k + 1 ≡ length log_blocks)
log_ends zero b h = (λ e. omega arith, λ e. ground arith)
log_ends (suc k) b h = absurd (ground arith)

pub log_first :
    (k : ℕ) (b : Block) → get_elem? log_blocks k ≡ some b → occurs 0 b.successors ≡ false
log_first zero b h = ground arith
log_first (suc k) b h = absurd (ground arith)

pub calls_loaded :
    (i j : ℕ) → listed callgraph i j ≡ true → (j < 2) × HasEdge module_table.call_graph i j
calls_loaded zero zero h = absurd (ground arith)
calls_loaded zero (suc zero) h =
    (omega arith, record { weight = 1; entry = refl; nonzero = λ e. omega (arith, e) })
calls_loaded zero (suc (suc j)) h = absurd (ground arith)
calls_loaded (suc i) j h = absurd (ground arith)

pub jumps_loaded :
    (i n k j : ℕ)
    → jumps_listed jumps i n k j ≡ true
    → (fd : FunctionData) × (at module_table.functions i ≡ some fd)
      × (j < fd.nb_blocks)
      × HasEdge fd.control_flow_graph k j
jumps_loaded zero n zero zero h = absurd (ground arith)
jumps_loaded zero n zero (suc zero) h = (
  run_data,
  refl,
  omega arith,
  record { weight = 1; entry = refl; nonzero = λ e. omega (arith, e) },
)
jumps_loaded zero n zero (suc (suc j)) h = absurd (ground arith)
jumps_loaded zero n (suc k) j h = absurd (ground arith)
jumps_loaded (suc i) n k j h = absurd (ground arith)

-- What is not announced calls no function, and what is announced calls the function.
pub unlinked : (i : Instruction) → inject_call cfi i ≡ some (kept i ∷ [], none) → callee i ≡ none
unfolding inject_call
unlinked invoke h = refl
unlinked inline_asm h = refl
unlinked indirect_call h = refl
unlinked other h = refl
unlinked (direct_call name true) h = refl
unlinked (direct_call name false) h = ground arith

pub linked :
    (i : Instruction) (id : ℕ)
    → inject_call cfi i ≡ some (inserted (cfi_call id) ∷ kept i ∷ [], some id)
    → (m : ℕ) × (f : ℕ) × (callee i ≡ some (m, f))
      × Target tables 0 id (record { module_id = m; function_id = f; block_id = 0 })
unfolding inject_call
linked invoke id h = absurd (ground arith)
linked inline_asm id h = absurd (ground arith)
linked indirect_call id h = absurd (ground arith)
linked other id h = absurd (ground arith)
linked (direct_call name true) id h = absurd (ground arith)
linked (direct_call name false) id h = elim (Bool-cases (same_name log name)) [
  | inl to_log ↦
      let is_log : id ≡ 1 = ground arith in
      let called : callee (direct_call name false) ≡ some (0, 1) = ground arith in
      (0, 1, called, rw is_log (internal log_data refl refl))
  | inr elsewhere ↦ elim (Bool-cases (same_name run name)) [
    | inl to_run ↦
        let is_run : id ≡ 0 = ground arith in
        let called : callee (direct_call name false) ≡ some (0, 0) = ground arith in
        (0, 0, called, rw is_run (internal run_data refl refl))
    | inr unknown ↦ absurd (ground arith)
  ]
]
