-- ===== src/Program/Compiled.antt =====
-- Programs whose modules are what `runOnModule` of llvm_pass/CFI/CFIModulePass.cpp leaves.
use picon.Base.{
  ℕ, ◌+◌, ◌^◌, ◌<◌, ◌≤◌, ◌≡◌, ◌∙◌, sym, ap, true, false, List, [], ◌∷◌, ◌++◌, length, none, some,
  Option-cases, inl, inr, arith,
}
use mathlib.Core.Path.{subst}
use mathlib.Core.List.{append_cancel_left}
use picon.Signal.{Signal}
use picon.Tables.{MonitorData, ModuleData, FunctionData, at}
use picon.Load.Cursor.{>>=-some}
use picon.Load.Rows.{Entry, listed}
use picon.Injected.{cfi_call}
use picon.Run.{Env}
use picon.Run.Linked.{StaysInPlace}
use picon.Run.Loop.{Round, finished, monitor_run}
use picon.Run.Whole.{AllServed, signals}
use picon.Run.Spec.{HasEdge, Target, IsEntrypoint}
use picon.Pass.{Name, Instruction, Cfi}
use picon.Pass.Files.{write_callgraph, FunctionBlocks, write_allowed_bb_trans}
use picon.Pass.FunctionIds.{write_function_ids}
use picon.Pass.Inject.{kept, inserted, inject_call, inject_code}
use picon.Pass.Numbered.{IsNumbered, AreNew}
use picon.Pass.FileIds.{IsFresh, identify_functions-IsNumbered}
use picon.Pass.Jumps.{jumps_listed}
use picon.Pass.Patch.{Globals}
use picon.Pass.Postdom.{write_ipdom_to_file}
use picon.Pass.Compile.{
  Module, Files, Compiled, analyse, write_module, write_trans_to_file, run_on_module,
}
use picon.Pass.Build.{analyse-IsPatched}
use picon.Pass.NextFile.{IsPatched-IsNumbered}
use picon.Program.{Program, ModuleCode, CallSends, AreFollowed, IsBuilt, AreBuilt}
use picon.Program.Allowed.{program_not_stopped}

write_trans_to_file-appends :
    (cfi : Cfi) (files written : Files)
    → write_trans_to_file true cfi files ≡ some written
    → (lines : List Entry) × (write_callgraph cfi ≡ some lines)
      × (written.trans ≡ files.trans ++ lines)
      × (written.bbtrans ≡ files.bbtrans ++ write_allowed_bb_trans cfi cfi.function_map)
unfolding write_trans_to_file
write_trans_to_file-appends cfi files written h = elim (Option-cases (write_callgraph cfi)) [
  | inl n ↦ absurd (ground arith)
  | inr (lines, q) ↦ (lines, q, ground arith, ground arith)
]

-- What a run of the pass at the level of basic blocks has done when it returns.
record IsWritten (cfi : Cfi) (files : Files) (r : Compiled) : Type 0 where
  same_cfi : cfi ≡ r.cfi
  injected : inject_code cfi true cfi.function_map ≡ some r.code
  lines : List Entry
  written : write_callgraph cfi ≡ some lines
  calls_appended : r.files.trans ≡ files.trans ++ lines
  jumps_appended : r.files.bbtrans ≡ files.bbtrans ++ write_allowed_bb_trans cfi cfi.function_map

write_module-IsWritten :
    (fctid_name : Name) (M : Module) (files : Files) (g : Globals) (cfi : Cfi) (r : Compiled)
    → write_module true fctid_name M files g cfi ≡ some r
    → IsWritten cfi files r
unfolding write_module
write_module-IsWritten fctid_name M files g cfi r h =
    let (w, q₁, h₁) = >>=-some (write_trans_to_file true cfi files) _ r h in
    let (ids, q₂, h₂) = >>=-some (write_function_ids cfi fctid_name files.fctid) _ r h₁ in
    let (ipds, q₃, h₃) = >>=-some (write_ipdom_to_file M.trees cfi cfi.function_map) _ r h₂ in
    let (code, q₄, h₄) = >>=-some (inject_code cfi true cfi.function_map) _ r h₃ in
    let (lines, q, calls, jumps) = write_trans_to_file-appends cfi files w q₁ in
    record {
      same_cfi = ground arith;
      injected = q₄ ∙ ground arith;
      lines = lines;
      written = q;
      calls_appended = ground (arith, calls);
      jumps_appended = ground (arith, jumps);
    }

-- The pass has been run on a module of LLVM, with the files that the modules before it have left,
-- in which ids are distinct and there is room for its functions. Its functions have the shape
-- that the pass is meant for; what it has appended to the tables is loaded (prelink/picon-prelink
-- puts it into the module), and the linker finds its functions.
pub record IsCompiled (prog : Program) (p : MonitorData) (m : ℕ) (code : ModuleCode) : Type 0 where
  pub source : Module
  pub ignored : List Name
  pub fctid_name : Name
  pub files : Files
  pub compiled : Compiled
  pub limit : ℕ
  pub ids_differ : AreNew limit files.fctid []
  pub room : limit + length source.functions < 2 ^ 32
  pub returned : run_on_module true ignored fctid_name source files ≡ some compiled
  pub same_code : compiled.code ≡ code
  pub is_followed : AreFollowed compiled.cfi compiled.cfi.function_map
  pub callgraph : List Entry
  pub calls_appended : compiled.files.trans ≡ files.trans ++ callgraph
  pub jumps : List FunctionBlocks
  pub jumps_appended : compiled.files.bbtrans ≡ files.bbtrans ++ jumps
  pub mdata : ModuleData
  pub found : at p.modules m ≡ some mdata
  pub calls_loaded :
      (i j : ℕ)
      → listed callgraph i j ≡ true
      → (j < mdata.nb_functions) × HasEdge mdata.call_graph i j
  pub jumps_loaded :
      (i n k j : ℕ)
      → jumps_listed jumps i n k j ≡ true
      → (fd : FunctionData) × (at mdata.functions i ≡ some fd)
        × (j < fd.nb_blocks)
        × HasEdge fd.control_flow_graph k j
  pub unlinked :
      (i : Instruction)
      → inject_call compiled.cfi i ≡ some (kept i ∷ [], none)
      → prog.callee m i ≡ none
  pub linked :
      (i : Instruction) (id : ℕ)
      → inject_call compiled.cfi i ≡ some (inserted (cfi_call id) ∷ kept i ∷ [], some id)
      → (m' : ℕ) × (f : ℕ) × (prog.callee m i ≡ some (m', f))
        × Target p m id (record { module_id = m'; function_id = f; block_id = 0 })

-- The state that the pass ends with has its functions under their ids.
run_on_module-IsNumbered :
    (ignored : List Name) (fctid_name : Name) (M : Module) (files : Files) (r : Compiled)
    (limit : ℕ)
    → AreNew limit files.fctid []
    → limit + length M.functions < 2 ^ 32
    → run_on_module true ignored fctid_name M files ≡ some r
    → IsNumbered r.cfi × IsWritten r.cfi files r
unfolding run_on_module
run_on_module-IsNumbered ignored fctid_name M files r limit news room returned =
    let ((g, cfi), q, h) = >>=-some (analyse ignored M files.fctid) _ r returned in
    let (annotated, identified, p₁, found, p₂) =
      analyse-IsPatched ignored M files.fctid (g, cfi) q in
    let fresh : IsFresh annotated = record { no_functions = p₁.same_ids; no_map = p₁.same_map } in
    let start : annotated.fun_id_ctr ≤ limit = omega (arith, p₁.same_counter) in
    let (numbered, bound) =
      identify_functions-IsNumbered annotated identified files.fctid M.functions limit fresh start
        news room found in
    let written = write_module-IsWritten fctid_name M files g cfi r h in
    subst (λ c. IsNumbered c × IsWritten c files r) written.same_cfi
      (IsPatched-IsNumbered cfi identified p₂ numbered, written)

module _ (prog : Program) (p : MonitorData) where
  IsCompiled-IsBuilt :
      (m : ℕ) (code : ModuleCode) → IsCompiled prog p m code → IsBuilt prog p m code
  IsCompiled-IsBuilt m code c =
      let (numbered, w) =
        run_on_module-IsNumbered c.ignored c.fctid_name c.source c.files c.compiled c.limit
          c.ids_differ c.room c.returned in
      let calls : w.lines ≡ c.callgraph =
        append_cancel_left c.files.trans w.lines c.callgraph
          (sym w.calls_appended ∙ c.calls_appended) in
      let own = write_allowed_bb_trans c.compiled.cfi c.compiled.cfi.function_map in
      let blocks : c.jumps ≡ own =
        append_cancel_left c.files.bbtrans c.jumps own (sym c.jumps_appended ∙ w.jumps_appended) in
      record {
        cfi = c.compiled.cfi;
        is_mapped = numbered.is_mapped;
        is_followed = c.is_followed;
        injected = w.injected ∙ ap some c.same_code;
        callgraph = c.callgraph;
        written = w.written ∙ ap some calls;
        mdata = c.mdata;
        found = c.found;
        calls_loaded = c.calls_loaded;
        jumps_loaded =
            λ i n k j h. c.jumps_loaded i n k j (ap (λ l. jumps_listed l i n k j) blocks ∙ h);
        unlinked = c.unlinked;
        linked = c.linked;
      }

-- Every module of the program is compiled like that.
pub record AreCompiled (prog : Program) (p : MonitorData) : Type 0 where
  pub compiled : (m : ℕ) (code : ModuleCode) → prog.code_of m ≡ some code → IsCompiled prog p m code

pub AreCompiled-AreBuilt : (prog : Program) (p : MonitorData) → AreCompiled prog p → AreBuilt prog p
AreCompiled-AreBuilt prog p all = record {
  built = λ m code q. IsCompiled-IsBuilt prog p m code (all.compiled m code q);
}

-- Let `runOnModule` have returned on the modules of a program, at the level of basic blocks, from
-- files with distinct ids and with room for the functions of the module. Let its functions have
-- one returning block, the last one, and no block that goes back to the first one, let none of
-- them be ignored, nor its blocks, let what is appended to the tables be loaded, and let a linker
-- find the functions that the relocations say. Let the monitor not trace, let its stacks be
-- allocated and stay in place, and let the signals of a call of an entry point come in time and
-- in whole packets and their answers be written. Then `monitor_run` returns 0 on them: the
-- program is not stopped.
pub compiled_not_stopped :
    (prog : Program) (env : Env) (depth m f : ℕ) (sig : Signal) (rs : List Round) (b₁ b₂ : ℕ)
    → AreCompiled prog env.program
    → m < env.program.nb_modules
    → (s : IsEntrypoint env.program m f) → f < s.mdata.nb_functions
    → CallSends prog depth m f (signals rs)
    → StaysInPlace env
    → env.sm_trace ≡ false
    → env.calls_calloc ≡ some b₁
    → env.blocks_calloc ≡ some b₂
    → 1 ≤ b₁
    → 1 ≤ b₂
    → AllServed rs
    → monitor_run env sig rs ≡ finished 0
compiled_not_stopped prog env depth m f sig rs b₁ b₂ all =
    program_not_stopped prog env depth m f sig rs b₁ b₂ (AreCompiled-AreBuilt prog env.program all)
