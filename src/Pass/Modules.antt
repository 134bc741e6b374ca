-- ===== src/Pass/Modules.antt =====
-- llvm_pass/CFI/CFIModulePass.cpp: the pass on the modules of a program, one after the other.
use picon.Base.{
  ℕ, ◌+◌, ◌^◌, ◌<◌, ◌≡◌, ◌∙◌, sym, ap, Bool, List, [], ◌∷◌, Option, none, some, length,
  Option-cases, inl, inr, arith,
}
use mathlib.Core.Path.{subst}
use picon.Pass.{Name, lookup}
use picon.Pass.Numbered.{AreNew}
use picon.Pass.FileIds.{file_ids}
use picon.Pass.Compile.{Module, Files, run_on_module}
use picon.Pass.NextFile.{run_on_module-AreNew}

-- The files after the pass has run on each of some modules.
abbrev pub run_on_modules : Bool → List Name → Name → List Module → Files → Option Files
run_on_modules basic_block ignored fctid_name [] files = some files
run_on_modules basic_block ignored fctid_name (M ∷ Ms) files =
    elim (run_on_module basic_block ignored fctid_name M files) [
      | none ↦ none
      | some r ↦ run_on_modules basic_block ignored fctid_name Ms r.files
    ]

-- How many functions they have.
abbrev pub count_functions : List Module → ℕ
count_functions [] = 0
count_functions (M ∷ Ms) = length M.functions + count_functions Ms

module _ (basic_block : Bool) (ignored : List Name) (fctid_name : Name) where
  modules_lem :
      (Ms : List Module) (files files' : Files) (limit : ℕ)
      → AreNew limit files.fctid []
      → limit + count_functions Ms < 2 ^ 32
      → run_on_modules basic_block ignored fctid_name Ms files ≡ some files'
      → AreNew (limit + count_functions Ms) files'.fctid []
        × ((x : Name) (id : ℕ)
            → lookup x (file_ids files.fctid) ≡ some id
            → lookup x (file_ids files'.fctid) ≡ some id)
  modules_lem [] files files' limit news room h =
      let same : files ≡ files' = ground arith in
      let none_more : limit ≡ limit + 0 = omega arith in
      (
        subst (λ n. AreNew n files'.fctid []) none_more
            (subst (λ f. AreNew limit f.fctid []) (same) news),
        λ x id q. ap (λ f. lookup x (file_ids f.fctid)) (sym same) ∙ q,
      )
  modules_lem (M ∷ Ms) files files' limit news room h =
      elim (Option-cases (run_on_module basic_block ignored fctid_name M files)) [
        | inl n ↦ absurd (ground arith)
        | inr (r, q) ↦
            let (news', kept) =
              run_on_module-AreNew basic_block ignored fctid_name M files r limit news
                (omega (arith, room)) q in
            let (news'', kept') =
              modules_lem Ms r.files files' (limit + length M.functions) news' (omega (arith, room))
                (ground arith) in
            let count : (limit + length M.functions) + count_functions Ms
                ≡ limit + (length M.functions + count_functions Ms) =
              omega arith in
            (subst (λ n. AreNew n files'.fctid []) count news'', λ x id e. kept' x id (kept x id e))
      ]

  module _ (Ms : List Module) (files files' : Files) (limit : ℕ)
      (news : AreNew limit files.fctid []) (room : limit + count_functions Ms < 2 ^ 32)
      (returned : run_on_modules basic_block ignored fctid_name Ms files ≡ some files') where
    -- Let the lines of the file of ids have ids that are distinct and below `limit`, with room
    -- below 2^32 for the functions of some modules. After
    -- the pass has run on them one after the other, each to its end, the lines of the file have
    -- distinct ids below `limit` and the number of functions.
    pub run_on_modules-AreNew : AreNew (limit + count_functions Ms) files'.fctid []
    run_on_modules-AreNew = (modules_lem Ms files files' limit news room returned).0

    -- Let the lines of the file of ids have ids that are distinct and below `limit`, with room
    -- below 2^32 for the functions of some modules. After
    -- the pass has run on them one after the other, each to its end, a name that had an id in the
    -- file has the same id in it.
    pub run_on_modules_keep :
        (x : Name) (id : ℕ)
        → lookup x (file_ids files.fctid) ≡ some id
        → lookup x (file_ids files'.fctid) ≡ some id
    run_on_modules_keep = (modules_lem Ms files files' limit news room returned).1
