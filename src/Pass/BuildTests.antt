-- ===== src/Pass/BuildTests.antt =====
-- llvm_pass/CFI/CFIModulePass.cpp, run on two modules: "run", which has a constructor's place,
-- calls "log" of the second one, and jumps.
use picon.Base.{
  ℕ, ◌≡◌, ◌⊎◌, refl, ◌∙◌, true, false, ◌==◌, ◌||◌, ◌&&◌, not, List, [], ◌∷◌, get_elem?, Option,
  none, some, arith, Bool-cases, inl, inr,
}
use picon.Pass.{
  Name, other, direct_call, Function, CfiFct, Cfi, FileEntry, contains, lookup, get_identifier,
  identify_functions, read_function_ids, add_identified_function, identify_module,
  identify_function, is_init_function,
}
use picon.Pass.Files.{
  insert_id, add_transition, collect_calls, collect_block_calls, collect_functions, write_callgraph,
  write_allowed_bb_trans, write_blocks,
}
use picon.Pass.Inject.{
  inject_call, inject_instructions, inject_mcall, inject_bb_enter, inject_bb_leave, inject_mentry,
  inject_mexit, inject_blocks, inject_function, inject_code,
}
use picon.Pass.FunctionIds.{
  flag_init, flag_external, put_entry, read_old, write_function, write_functions, left_over,
  write_function_ids,
}
use picon.Pass.FileIds.{file_ids}
use picon.Pass.Numbered.{AreNew}
use picon.Pass.Patch.{
  Pointer, null, function, cast, struct, Global, Globals, expose, patch_elements, patch_functions,
  patch_ctor_functions, patch_dtor_functions, parse_annotations,
}
use picon.Pass.Postdom.{IpdLine, post_dominator, common, write_ipds, write_ipdom_to_file}
use picon.Pass.Compile.{
  Module, Files, new_cfi, write_trans_to_file, analyse, write_module, run_on_module,
}
use picon.Pass.Modules.{run_on_modules, run_on_modules-AreNew, run_on_modules_keep}
use picon.Pass.Constructors.{constructors_exposed, constructors_flagged}
use picon.Pass.PostdomLaws.{IsIpd, IsPostdomTree, write_ipds-PostDominates}

abbrev run : Name
run = 114 ∷ []

abbrev log : Name
log = 108 ∷ []

abbrev run_function : Function
run_function = record {
  name = run;
  is_intrinsic = false;
  blocks =
      record { phis = []; body = direct_call log false ∷ []; successors = 1 ∷ [] }
      ∷ record { phis = []; body = other ∷ []; successors = [] }
      ∷ [];
}

abbrev log_declaration : Function
log_declaration = record { name = log; is_intrinsic = false; blocks = [] }

abbrev log_function : Function
log_function = record log_declaration {
  blocks = record { phis = []; body = other ∷ []; successors = [] } ∷ [];
}

abbrev no_globals : Globals
no_globals = record {
  ctors = none;
  dtors = none;
  annotations = none;
  local_functions = [];
  hidden_functions = [];
}

abbrev constructors : Global Pointer
constructors = record {
  has_operand = true;
  initializer = some (some (struct (cast (function run)) ∷ struct null ∷ []));
  num_uses = 0;
}

abbrev run_globals : Globals
run_globals = record no_globals { ctors = some constructors; local_functions = run ∷ [] }

-- No two blocks have a post-dominator.
abbrev no_nearest : ℕ → ℕ → Option ℕ
no_nearest a b = none

abbrev modules : List Module
modules =
    record {
      functions = run_function ∷ log_declaration ∷ [];
      globals = run_globals;
      trees = λ name. no_nearest;
    }
    ∷ record { functions = log_function ∷ []; globals = no_globals; trees = λ name. no_nearest }
    ∷ []

abbrev no_files : Files
no_files = record { fctid = []; trans = []; bbtrans = []; ipdom = [] }

-- The name of the file of ids.
abbrev file : Name
file = 102 ∷ []

abbrev files : Files
files = record {
  fctid =
      record { fct_name = log; id = 1; flags = file }
      ∷ record { fct_name = run; id = 0; flags = flag_init }
      ∷ [];
  trans = record { source = 0; targets = 1 ∷ [] } ∷ [];
  bbtrans =
      record { fct_id = 0; num_bb = 2; transitions = record { source = 0; targets = 1 ∷ [] } ∷ [] }
      ∷ record { fct_id = 1; num_bb = 1; transitions = [] }
      ∷ [];
  ipdom =
      record { fct_id = 0; block_id = 0; ipd = 1; last_block = 1 }
      ∷ record { fct_id = 0; block_id = 1; ipd = 0; last_block = 1 }
      ∷ record { fct_id = 1; block_id = 0; ipd = 0; last_block = 0 }
      ∷ [];
}

compiled : run_on_modules true [] file modules no_files ≡ some files
unfolding run_on_module analyse write_module parse_annotations identify_functions read_function_ids
    add_identified_function identify_module identify_function patch_ctor_functions
    patch_dtor_functions patch_functions patch_elements expose write_trans_to_file write_callgraph
    collect_functions collect_block_calls collect_calls add_transition insert_id
    write_allowed_bb_trans write_blocks write_function_ids write_functions write_function read_old
    put_entry left_over write_ipdom_to_file write_ipds post_dominator common inject_code
    inject_function inject_mcall inject_instructions inject_call inject_blocks inject_bb_enter
    inject_bb_leave inject_mentry inject_mexit
compiled = refl

-- The same build, with an id in the file before.
abbrev known : Files
known = record no_files { fctid = record { fct_name = log; id = 1; flags = flag_external } ∷ [] }

abbrev known_files : Files
known_files = record files {
  fctid =
      record { fct_name = log; id = 1; flags = file }
      ∷ record { fct_name = run; id = 2; flags = flag_init }
      ∷ [];
  trans = record { source = 2; targets = 1 ∷ [] } ∷ [];
  bbtrans =
      record { fct_id = 2; num_bb = 2; transitions = record { source = 0; targets = 1 ∷ [] } ∷ [] }
      ∷ record { fct_id = 1; num_bb = 1; transitions = [] }
      ∷ [];
  ipdom =
      record { fct_id = 2; block_id = 0; ipd = 1; last_block = 1 }
      ∷ record { fct_id = 2; block_id = 1; ipd = 0; last_block = 1 }
      ∷ record { fct_id = 1; block_id = 0; ipd = 0; last_block = 0 }
      ∷ [];
}

known_compiled : run_on_modules true [] file modules known ≡ some known_files
unfolding run_on_module analyse write_module parse_annotations identify_functions read_function_ids
    add_identified_function identify_module identify_function patch_ctor_functions
    patch_dtor_functions patch_functions patch_elements expose write_trans_to_file write_callgraph
    collect_functions collect_block_calls collect_calls add_transition insert_id
    write_allowed_bb_trans write_blocks write_function_ids write_functions write_function read_old
    put_entry left_over write_ipdom_to_file write_ipds post_dominator common inject_code
    inject_function inject_mcall inject_instructions inject_call inject_blocks inject_bb_enter
    inject_bb_leave inject_mentry inject_mexit
known_compiled = refl

abbrev cfi : Cfi
cfi = record (new_cfi []) {
  function_map = record { fun = run_function; id = 0 } ∷ [];
  identified_functions = (run, 0) ∷ [];
  fun_id_ctr = 1;
}

abbrev patched_globals : Globals
patched_globals = record no_globals { hidden_functions = run ∷ [] }

abbrev patched_cfi : Cfi
patched_cfi = record cfi { init_functions = run ∷ [] }

patched : patch_ctor_functions run_globals cfi ≡ some (patched_globals, patched_cfi)
unfolding patch_ctor_functions patch_functions patch_elements expose
patched = refl

-- The lines of the post-dominators of a function whose first block has two successors, of which
-- the second one goes to the first one.
abbrev branches : Function
branches = record {
  name = run;
  is_intrinsic = false;
  blocks =
      record { phis = []; body = other ∷ []; successors = 1 ∷ 2 ∷ [] }
      ∷ record { phis = []; body = other ∷ []; successors = 2 ∷ [] }
      ∷ record { phis = []; body = other ∷ []; successors = [] }
      ∷ [];
}

-- The last block post-dominates every other one.
abbrev nearest_block : ℕ → ℕ → Option ℕ
nearest_block a b = elim (a == b) [ true ↦ some a | false ↦ some 2 ]

abbrev PostDominatesBlock : ℕ → ℕ → Type 0
PostDominatesBlock a b = (a ≡ b) ⊎ (a ≡ 2)

nearest_block-IsPostdomTree : IsPostdomTree nearest_block PostDominatesBlock
nearest_block-IsPostdomTree = record {
  common_left = λ a b d h. elim (Bool-cases (a == b)) [
    | inl s ↦ inl (ground arith)
    | inr s ↦ inr (ground arith)
  ];
  common_right = λ a b d h. elim (Bool-cases (a == b)) [
    | inl s ↦ inl (ground arith)
    | inr s ↦ inr (ground arith)
  ];
  nearest_one = λ a b d x h p q. elim (Bool-cases (a == b)) [
    | inl s ↦
        let same : a ≡ d = ground arith in elim p [ inl e ↦ inl (e ∙ same) | inr two ↦ inr two ]
    | inr s ↦
        let last : 2 ≡ d = ground arith in
        elim p [
          | inl e ↦ elim q [ inl e' ↦ absurd (ground arith) | inr two ↦ inl (two ∙ last) ]
          | inr two ↦ inl (two ∙ last)
        ]
  ];
  found = λ a b x h p q. elim (Bool-cases (a == b)) [ inl s ↦ ground arith | inr s ↦ ground arith ];
  itself = λ a. inl refl;
  transitive = λ a b c h k. elim h [
    | inl e ↦ elim k [ inl e' ↦ inl (e ∙ e') | inr two ↦ inr (e ∙ two) ]
    | inr two ↦ inr two
  ];
}

abbrev branch_lines : List IpdLine
branch_lines =
    record { fct_id = 0; block_id = 0; ipd = 2; last_block = 2 }
    ∷ record { fct_id = 0; block_id = 1; ipd = 2; last_block = 2 }
    ∷ record { fct_id = 0; block_id = 2; ipd = 0; last_block = 2 }
    ∷ []

branches_written : write_ipds nearest_block cfi branches 0 branches.blocks ≡ some branch_lines
unfolding write_ipds post_dominator common
branches_written = refl

-- Witnesses.
run_on_modules-AreNew_example : AreNew 3 files.fctid []
run_on_modules-AreNew_example =
    run_on_modules-AreNew true [] file modules no_files files 0 tt (omega arith) compiled

run_on_modules_keep_example : lookup log (file_ids known_files.fctid) ≡ some 1
run_on_modules_keep_example =
    run_on_modules_keep true [] file modules known known_files 2 (omega arith, refl, tt)
      (omega arith) known_compiled log 1 refl

write_ipds-PostDominates_example :
    (line : IpdLine) × (get_elem? branch_lines 0 ≡ some line)
    × (get_identifier cfi run ≡ some line.fct_id)
    × (line.block_id ≡ 0)
    × (line.last_block ≡ 2)
    × IsIpd PostDominatesBlock (1 ∷ 2 ∷ []) line.ipd
write_ipds-PostDominates_example =
    write_ipds-PostDominates nearest_block PostDominatesBlock nearest_block-IsPostdomTree cfi
      branches branch_lines branches_written 0
      (record { phis = []; body = other ∷ []; successors = 1 ∷ 2 ∷ [] }) refl

constructors_exposed_example :
    (patched_globals.ctors ≡ none)
    × (is_init_function patched_cfi run ≡ (contains (run ∷ []) run || is_init_function cfi run))
    × (contains patched_globals.hidden_functions run
        ≡ (contains (run ∷ []) run || contains run_globals.hidden_functions run))
    × (contains patched_globals.local_functions run
        ≡ (not (contains (run ∷ []) run) && contains run_globals.local_functions run))
constructors_exposed_example =
    constructors_exposed run_globals patched_globals cfi patched_cfi constructors
      (struct (cast (function run)) ∷ struct null ∷ []) refl refl refl patched run

abbrev run_fct : CfiFct
run_fct = record { fun = run_function; id = 0 }

abbrev run_line : FileEntry
run_line = record { fct_name = run; id = 0; flags = flag_init }

run_written : write_function patched_cfi file [] run_fct ≡ some run_line
unfolding write_function
run_written = refl

constructors_flagged_example :
    (run_line.fct_name ≡ run_fct.fun.name)
    × (run_line.id ≡ run_fct.id)
    × (run_line.flags ≡ flag_init)
constructors_flagged_example =
    constructors_flagged run_globals patched_globals cfi patched_cfi constructors
      (struct (cast (function run)) ∷ struct null ∷ []) refl refl refl patched file [] run_fct
      run_line refl refl run_written
