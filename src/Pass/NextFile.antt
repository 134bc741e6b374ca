-- ===== src/Pass/NextFile.antt =====
-- llvm_pass/CFI/CFIModulePass.cpp: the file of function ids that a run of the pass leaves to the
-- next one.
use picon.Base.{
  ℕ, ◌+◌, ◌^◌, ◌<◌, ◌≤◌, ◌≡◌, refl, ◌∙◌, sym, ap, Bool, List, [], ◌∷◌, ◌++◌, some, length,
  Option-cases, inl, inr, arith,
}
use mathlib.Core.Path.{subst}
use picon.Load.Cursor.{>>=-some}
use picon.Pass.{
  Name, Function, Cfi, FileEntry, contains, lookup, identify_functions, identify_module,
  read_function_ids, add_identified_function,
}
use picon.Pass.Numbered.{IsNumbered, AreNew}
use picon.Pass.FileIds.{
  IsFresh, file_ids, AreFileIds, identify_functions-IsNumbered, identify_functions-AreFileIds,
  AreFileIds-lookup,
}
use picon.Pass.Covered.{file_names}
use picon.Pass.FunctionIds.{map_names, read_old, left_over, write_functions, write_function_ids}
use picon.Pass.Written.{AreFileIds-read_old}
use picon.Pass.Reread.{
  write_functions-AreFileIds, left_over-AreFileIds, AreFileIds-append, write_function_ids-lookup,
  identify_functions-covered,
}
use picon.Pass.Distinct.{AreOnce, AreFileIds-AreNew}
use picon.Pass.Once.{AreOnce-read_old, AreOnce-append}
use picon.Pass.Patch.{Globals}
use picon.Pass.Compile.{Module, Files, Compiled, analyse, write_module, run_on_module}
use picon.Pass.Build.{IsPatched, analyse-IsPatched, write_module-fctid, identify_module-AreOnce}

-- The lines that are written have the ids of their names, and no name stands twice.
pub write_function_ids-AreOnce :
    (cfi : Cfi) (fun_id_file : Name) (file lines : List FileEntry)
    → IsNumbered cfi
    → AreFileIds cfi file
    → AreOnce (map_names cfi.function_map)
    → write_function_ids cfi fun_id_file file ≡ some lines
    → AreFileIds cfi lines × AreOnce (file_names lines)
unfolding write_function_ids
write_function_ids-AreOnce cfi fun_id_file file lines n given once w =
    let old = read_old file [] in
    let names = map_names cfi.function_map in
    elim (Option-cases (write_functions cfi fun_id_file old cfi.function_map)) [
      | inl none_written ↦ absurd (ground arith)
      | inr (own, q) ↦
          let same : lines ≡ own ++ left_over names old = ground arith in
          let (own_ids, named) =
            write_functions-AreFileIds cfi fun_id_file old cfi.function_map own n.is_mapped q in
          let all : AreFileIds cfi (own ++ left_over names old) =
            AreFileIds-append cfi own (left_over names old) own_ids
              (left_over-AreFileIds cfi names old (AreFileIds-read_old cfi file [] given tt)) in
          let each : AreOnce (file_names (own ++ left_over names old)) =
            AreOnce-append own old names (subst AreOnce (sym named) once)
              (λ x e. ap (λ l. contains l x) (sym named) ∙ e) (AreOnce-read_old file [] tt) in
          rw same (all, each)
    ]

-- So they have new ids, below the counter.
write_function_ids-AreNew :
    (cfi : Cfi) (fun_id_file : Name) (file lines : List FileEntry)
    → IsNumbered cfi
    → AreFileIds cfi file
    → AreOnce (map_names cfi.function_map)
    → write_function_ids cfi fun_id_file file ≡ some lines
    → AreNew cfi.fun_id_ctr lines []
write_function_ids-AreNew cfi fun_id_file file lines n given once w =
    let (all, each) = write_function_ids-AreOnce cfi fun_id_file file lines n given once w in
    AreFileIds-AreNew cfi cfi.fun_id_ctr lines [] n (omega arith) all tt each (λ x e. refl)

-- A state that is another but for sets of names has the same properties.
module _ (cfi' cfi : Cfi) (patched : IsPatched cfi' cfi) where
  pub IsPatched-IsNumbered : IsNumbered cfi → IsNumbered cfi'
  IsPatched-IsNumbered n = record {
    below = rw (patched.same_counter, patched.same_ids) n.below;
    distinct = rw patched.same_ids n.distinct;
    is_mapped = rw (patched.same_ids, patched.same_map) n.is_mapped;
  }

  IsPatched-AreFileIds : (file : List FileEntry) → AreFileIds cfi file → AreFileIds cfi' file
  IsPatched-AreFileIds [] h = tt
  IsPatched-AreFileIds (e ∷ es) h =
      (ap (lookup e.fct_name) patched.same_ids ∙ h.0, IsPatched-AreFileIds es h.1)

-- Reading the file leaves the map.
add_identified_function-map :
    (cfi cfi' : Cfi) (name : Name) (id : ℕ)
    → add_identified_function cfi name id ≡ some cfi'
    → cfi'.function_map ≡ cfi.function_map
unfolding add_identified_function
add_identified_function-map cfi cfi' name id h =
    elim (Option-cases (lookup name cfi.identified_functions)) [
      | inl n ↦ ground arith
      | inr known ↦ absurd (ground arith)
    ]

read_function_ids-map :
    (cfi cfi' : Cfi) (file : List FileEntry)
    → read_function_ids cfi file ≡ some cfi'
    → cfi'.function_map ≡ cfi.function_map
unfolding read_function_ids
read_function_ids-map cfi cfi' [] h = ground arith
read_function_ids-map cfi cfi' (e ∷ es) h =
    elim (Option-cases (add_identified_function cfi e.fct_name e.id)) [
      | inl n ↦ absurd (ground arith)
      | inr (next, q) ↦
          read_function_ids-map next cfi' es (ground arith)
          ∙ add_identified_function-map cfi next e.fct_name e.id q
    ]

pub identify_functions-AreOnce :
    (cfi cfi' : Cfi) (file : List FileEntry) (fs : List Function)
    → IsFresh cfi
    → identify_functions cfi file fs ≡ some cfi'
    → AreOnce (map_names cfi'.function_map)
unfolding identify_functions
identify_functions-AreOnce cfi cfi' file fs fresh h =
    elim (Option-cases (read_function_ids cfi file)) [
      | inl n ↦ absurd (ground arith)
      | inr (mid, q) ↦
          let same : cfi' ≡ identify_module mid fs = ground arith in
          let empty : mid.function_map ≡ [] = read_function_ids-map cfi mid file q ∙ fresh.no_map in
          rw same (identify_module-AreOnce mid fs (rw empty tt))
    ]

AreNew-le :
    (n k : ℕ) (es : List FileEntry) (used : List ℕ) → n ≤ k → AreNew n es used → AreNew k es used
AreNew-le n k [] used le h = tt
AreNew-le n k (e ∷ es) used le h =
    (omega (arith, h.0, le), h.1, AreNew-le n k es (e.id ∷ used) le h.2)

-- Let the lines of the file of ids have ids that are distinct and below `limit`, with room below
-- 2^32 for the functions of the module. Where the pass runs on the
-- module to its end, the lines of the new file have ids that are distinct and below `limit` and
-- the number of functions, and each name that had an id in the old file has it in the new one.
module _ (basic_block : Bool) (ignored : List Name) (fctid_name : Name) (M : Module) (files : Files)
    (r : Compiled) (limit : ℕ) (news : AreNew limit files.fctid [])
    (room : limit + length M.functions < 2 ^ 32)
    (returned : run_on_module basic_block ignored fctid_name M files ≡ some r) where
  same_lookup :
      (cfi annotated identified : Cfi)
      → IsPatched cfi identified
      → IsFresh annotated
      → identify_functions annotated files.fctid M.functions ≡ some identified
      → IsNumbered cfi
      → AreFileIds cfi files.fctid
      → write_function_ids cfi fctid_name files.fctid ≡ some r.files.fctid
      → (x : Name) (id : ℕ) → lookup x (file_ids files.fctid) ≡ some id
      → lookup x (file_ids r.files.fctid) ≡ some id
  same_lookup cfi annotated identified p₂ fresh found n given w x id e =
      let (lines, written, finds) =
        write_function_ids-lookup cfi files.fctid fctid_name x n.is_mapped given (λ k known.
          rw p₂.same_map (
            identify_functions-covered annotated identified files.fctid M.functions x k fresh found
              (ap (lookup x) (sym p₂.same_ids) ∙ known))) in
      let one : lines ≡ r.files.fctid = ground arith in
      ap (λ l. lookup x (file_ids l)) (sym one)
      ∙ (finds ∙ AreFileIds-lookup cfi files.fctid x id given e)

  one_run :
      (g : Globals) (cfi : Cfi)
      → analyse ignored M files.fctid ≡ some (g, cfi)
      → write_module basic_block fctid_name M files g cfi ≡ some r
      → AreNew (limit + length M.functions) r.files.fctid []
        × ((x : Name) (id : ℕ)
            → lookup x (file_ids files.fctid) ≡ some id
            → lookup x (file_ids r.files.fctid) ≡ some id)
  one_run g cfi q h =
      let (annotated, identified, p₁, found, p₂) =
        analyse-IsPatched ignored M files.fctid (g, cfi) q in
      let fresh : IsFresh annotated = record { no_functions = p₁.same_ids; no_map = p₁.same_map } in
      let start : annotated.fun_id_ctr ≤ limit = omega (arith, p₁.same_counter) in
      let w = write_module-fctid basic_block fctid_name M files g cfi r h in
      let (numbered, bound) =
        identify_functions-IsNumbered annotated identified files.fctid M.functions limit fresh start
          news room found in
      let n = IsPatched-IsNumbered cfi identified p₂ numbered in
      let given = IsPatched-AreFileIds cfi identified p₂ files.fctid (
        identify_functions-AreFileIds annotated identified files.fctid M.functions limit fresh start
          news room found) in
      let map_once : AreOnce (map_names cfi.function_map) =
        rw p₂.same_map
          (identify_functions-AreOnce annotated identified files.fctid M.functions fresh found) in
      let new =
        write_function_ids-AreNew cfi fctid_name files.fctid r.files.fctid n given map_once w in
      (
        AreNew-le cfi.fun_id_ctr (limit + length M.functions) r.files.fctid []
            (omega (arith, bound, p₂.same_counter)) new,
        λ x id e. same_lookup cfi annotated identified p₂ fresh found n given w x id e,
      )

  pub run_on_module-AreNew :
      AreNew (limit + length M.functions) r.files.fctid []
      × ((x : Name) (id : ℕ)
          → lookup x (file_ids files.fctid) ≡ some id
          → lookup x (file_ids r.files.fctid) ≡ some id)
  unfolding run_on_module
  run_on_module-AreNew =
      let ((g, cfi), q, h) = >>=-some (analyse ignored M files.fctid) _ r returned in
      one_run g cfi q h
