-- ===== src/Pass/Compile.antt =====
-- llvm_pass/CFI/CFIModulePass.cpp, `runOnModule`: the pass on one module, with the files of the
-- modules before it. The lock of the files is not modelled.
use picon.Base.{ℕ, Bool, true, false, List, [], ◌∷◌, ◌++◌, Option, none, some}
use picon.Load.Cursor.{◌>>=◌}
use picon.Load.Rows.{Entry}
use picon.Pass.{Name, Function, Cfi, FileEntry, identify_functions}
use picon.Pass.Files.{write_callgraph, FunctionBlocks, write_allowed_bb_trans}
use picon.Pass.Inject.{InjectedBlock, inject_code}
use picon.Pass.FunctionIds.{write_function_ids}
use picon.Pass.Patch.{
  Globals, insert_name, patch_ctor_functions, patch_dtor_functions, parse_annotations,
}
use picon.Pass.Postdom.{IpdLine, write_ipdom_to_file}

-- A module of LLVM, with the post-dominator trees of its functions.
pub record Module : Type 0 where
  pub functions : List Function
  pub globals : Globals
  pub trees : Name → ℕ → ℕ → Option ℕ

-- The files with the prefix, as their lines: ".fctid", ".trans", ".bbtrans" and ".ipdom".
pub record Files : Type 0 where
  pub fctid : List FileEntry
  pub trans : List Entry
  pub bbtrans : List FunctionBlocks
  pub ipdom : List IpdLine

-- The lines of the file of functions to ignore.
abbrev pub insert_names : List Name → List Name → List Name
insert_names [] names = names
insert_names (line ∷ lines) names = insert_names lines (insert_name line names)

-- `ControlFlowIntegrity::ControlFlowIntegrity`: no lines where no file is named.
abbrev pub new_cfi : List Name → Cfi
new_cfi lines = record {
  function_map = [];
  identified_functions = [];
  ignored_functions = insert_names lines [];
  init_functions = [];
  fini_functions = [];
  ignored_blocks_functions = [];
  fun_id_ctr = 0;
}

-- `writeTransToFile`: what is appended
unfoldable pub write_trans_to_file : Bool → Cfi → Files → Option Files
write_trans_to_file basic_block cfi files = elim (write_callgraph cfi) [
  | none ↦ none
  | some lines ↦
      let files' = record files { trans = files.trans ++ lines } in
      elim basic_block [
        | false ↦ some files'
        | true ↦ some (record files' {
          bbtrans = files.bbtrans ++ write_allowed_bb_trans cfi cfi.function_map;
        })
      ]
]

-- What the pass leaves of a module: its state, the globals, the files, and the code.
pub record Compiled : Type 0 where
  pub cfi : Cfi
  pub globals : Globals
  pub files : Files
  pub code : List (ℕ × List InjectedBlock)

-- `runOnModule`, up to where the files are written.
unfoldable pub analyse : List Name → Module → List FileEntry → Option (Globals × Cfi)
analyse ignored M fctid = do
  annotated ← parse_annotations M.globals (new_cfi ignored)
  identified ← identify_functions annotated fctid M.functions
  (g, cfi) ← patch_ctor_functions M.globals identified
  patch_dtor_functions g cfi

-- From there on, at the level of basic blocks or not.
unfoldable pub write_module : Bool → Name → Module → Files → Globals → Cfi → Option Compiled
write_module basic_block fctid_name M files g cfi = do
  written ← write_trans_to_file basic_block cfi files
  lines ← write_function_ids cfi fctid_name files.fctid
  ipds ← write_ipdom_to_file M.trees cfi cfi.function_map
  code ← inject_code cfi basic_block cfi.function_map
  some (record {
    cfi = cfi;
    globals = g;
    files = record written { fctid = lines; ipdom = written.ipdom ++ ipds };
    code = code;
  })

-- `runOnModule`
unfoldable pub run_on_module : Bool → List Name → Name → Module → Files → Option Compiled
run_on_module basic_block ignored fctid_name M files = do
  (g, cfi) ← analyse ignored M files.fctid
  write_module basic_block fctid_name M files g cfi
