-- ===== src/Pass/Build.antt =====
-- llvm_pass/CFI/CFIModulePass.cpp: the pass on the modules of a program, one after the other. The
-- files of one run are those that the next one finds.
use picon.Base.{
  ◌≡◌, refl, ◌∙◌, sym, ap, Bool, ◌||◌, List, [], ◌∷◌, some, Option-cases, Bool-cases, inl, inr,
  arith,
}
use mathlib.Core.Path.{subst}
use picon.Load.Cursor.{>>=-some}
use picon.Pass.{
  Name, Function, Cfi, FileEntry, contains, is_ignored_function, identify_module,
  identify_functions,
}
use picon.Pass.Numbered.{mapped}
use picon.Pass.Covered.{insert_fct_name, map_names-mapped}
use picon.Pass.FunctionIds.{map_names, write_function_ids}
use picon.Pass.Distinct.{AreOnce}
use picon.Pass.Patch.{
  Globals, patch_functions, patch_ctor_functions, patch_dtor_functions, parse_annotations,
}
use picon.Pass.Postdom.{write_ipdom_to_file}
use picon.Pass.Inject.{inject_code}
use picon.Pass.Compile.{
  Module, Files, Compiled, new_cfi, analyse, write_module, write_trans_to_file,
}

AreOnce-insert_fct_name :
    (n : Name) (names : List Name) → AreOnce names → AreOnce (insert_fct_name n names)
AreOnce-insert_fct_name n names h = elim (Bool-cases (contains names n)) [
  | inl old ↦ let e : insert_fct_name n names ≡ names = ground arith in rw e h
  | inr new ↦ let e : insert_fct_name n names ≡ n ∷ names = ground arith in rw e (new, h)
]

-- No name stands twice in the map.
pub identify_module-AreOnce :
    (cfi : Cfi) (fs : List Function)
    → AreOnce (map_names cfi.function_map)
    → AreOnce (map_names (identify_module cfi fs).function_map)
unfolding identify_module
identify_module-AreOnce cfi [] k = k
identify_module-AreOnce cfi (f ∷ fs) k =
    elim (Bool-cases (is_ignored_function cfi f.name || f.is_intrinsic)) [
      | inl skipped ↦
          let q : identify_module cfi (f ∷ fs) ≡ identify_module cfi fs = ground arith in
          rw q (identify_module-AreOnce cfi fs k)
      | inr seen ↦
          let q : identify_module cfi (f ∷ fs) ≡ identify_module (mapped cfi f) fs = ground arith in
          let once : AreOnce (map_names (mapped cfi f).function_map) =
            subst AreOnce (sym (map_names-mapped cfi f))
              (AreOnce-insert_fct_name f.name (map_names cfi.function_map) k) in
          rw q (identify_module-AreOnce (mapped cfi f) fs once)
    ]

-- A state that is another but for sets of names.
pub record IsPatched (cfi' cfi : Cfi) : Type 0 where
  pub same_ids : cfi'.identified_functions ≡ cfi.identified_functions
  pub same_map : cfi'.function_map ≡ cfi.function_map
  pub same_counter : cfi'.fun_id_ctr ≡ cfi.fun_id_ctr

patch_ctor_functions-IsPatched :
    (g : Globals) (cfi : Cfi) (r : Globals × Cfi)
    → patch_ctor_functions g cfi ≡ some r
    → IsPatched r.1 cfi
unfolding patch_ctor_functions
patch_ctor_functions-IsPatched g cfi r h =
    elim (Option-cases (patch_functions g.ctors (g, cfi.init_functions))) [
      | inl n ↦ absurd (ground arith)
      | inr ((removed, g', names), q) ↦
          let same : r.1 ≡ record cfi { init_functions = names } = ground arith in
          rw same (record { same_ids = refl; same_map = refl; same_counter = refl })
    ]

patch_dtor_functions-IsPatched :
    (g : Globals) (cfi : Cfi) (r : Globals × Cfi)
    → patch_dtor_functions g cfi ≡ some r
    → IsPatched r.1 cfi
unfolding patch_dtor_functions
patch_dtor_functions-IsPatched g cfi r h =
    elim (Option-cases (patch_functions g.dtors (g, cfi.fini_functions))) [
      | inl n ↦ absurd (ground arith)
      | inr ((removed, g', names), q) ↦
          let same : r.1 ≡ record cfi { fini_functions = names } = ground arith in
          rw same (record { same_ids = refl; same_map = refl; same_counter = refl })
    ]

parse_annotations-IsPatched :
    (g : Globals) (cfi cfi' : Cfi) → parse_annotations g cfi ≡ some cfi' → IsPatched cfi' cfi
unfolding parse_annotations
parse_annotations-IsPatched g cfi cfi' h = record {
  same_ids = ground arith;
  same_map = ground arith;
  same_counter = ground arith;
}

IsPatched-trans : (a b c : Cfi) → IsPatched a b → IsPatched b c → IsPatched a c
IsPatched-trans a b c h k = record {
  same_ids = h.same_ids ∙ k.same_ids;
  same_map = h.same_map ∙ k.same_map;
  same_counter = h.same_counter ∙ k.same_counter;
}

-- The functions of a module are identified from the lines of the file, in a state without any.
pub analyse-IsPatched :
    (ignored : List Name) (M : Module) (fctid : List FileEntry) (r : Globals × Cfi)
    → analyse ignored M fctid ≡ some r
    → (annotated : Cfi) × (identified : Cfi) × IsPatched annotated (new_cfi ignored)
      × (identify_functions annotated fctid M.functions ≡ some identified)
      × IsPatched r.1 identified
unfolding analyse
analyse-IsPatched ignored M fctid r h =
    let (annotated, q₁, h₁) = >>=-some (parse_annotations M.globals (new_cfi ignored)) _ r h in
    let (identified, q₂, h₂) = >>=-some (identify_functions annotated fctid M.functions) _ r h₁ in
    let (patched, q₃, h₃) = >>=-some (patch_ctor_functions M.globals identified) _ r h₂ in
    (
      annotated,
      identified,
      parse_annotations-IsPatched M.globals (new_cfi ignored) annotated q₁,
      q₂,
      IsPatched-trans r.1 patched.1 identified
          (patch_dtor_functions-IsPatched patched.0 patched.1 r h₃)
          (patch_ctor_functions-IsPatched M.globals identified patched q₃),
    )

pub write_module-fctid :
    (basic_block : Bool) (fctid_name : Name) (M : Module) (files : Files) (g : Globals) (cfi : Cfi)
    (r : Compiled)
    → write_module basic_block fctid_name M files g cfi ≡ some r
    → write_function_ids cfi fctid_name files.fctid ≡ some r.files.fctid
unfolding write_module
write_module-fctid basic_block fctid_name M files g cfi r h =
    let (written, q₁, h₁) = >>=-some (write_trans_to_file basic_block cfi files) _ r h in
    let (lines, q₂, h₂) = >>=-some (write_function_ids cfi fctid_name files.fctid) _ r h₁ in
    let (ipds, q₃, h₃) = >>=-some (write_ipdom_to_file M.trees cfi cfi.function_map) _ r h₂ in
    let (code, q₄, h₄) = >>=-some (inject_code cfi basic_block cfi.function_map) _ r h₃ in
    let same : lines ≡ r.files.fctid = ground arith in q₂ ∙ ap some same
