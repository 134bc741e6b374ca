-- ===== src/Pass/Roundtrip.antt =====
-- llvm_pass/CFI/CFI.cpp: the file that `writeFunctionIDs` writes, read by `IdentifyFunctions` for
-- the next module.
use picon.Base.{
  ℕ, ◌+◌, ◌%◌, ◌^◌, leb, if◌then◌else◌, ◌<◌, ◌≤◌, ◌≡◌, refl, ◌∙◌, ap, true, false, List, [], ◌∷◌,
  Option, none, some, length, Bool-cases, Option-cases, inl, inr, arith,
}
use picon.Load.Relocations.{same_name}
use picon.Load.Search.{same_name_sound}
use picon.Pass.{
  Name, Function, Cfi, FileEntry, contains, lookup, get_identifier, read_function_ids,
  add_identified_function, identify_functions,
}
use picon.Pass.Numbered.{AreNew, same_name_refl}
use picon.Pass.FileIds.{
  IsFresh, file_ids, identify_functions-AreFileIds, identify_functions-IsNumbered,
}
use picon.Pass.FunctionIds.{write_function_ids}
use picon.Pass.Covered.{file_names}
use picon.Pass.Reread.{write_function_ids-lookup, identify_functions-covered}
use picon.Pass.Distinct.{AreOnce, later_in}
use picon.Pass.NextFile.{write_function_ids-AreOnce, identify_functions-AreOnce}

-- A name that has no id is given the one of its line.
add_identified_function-adds :
    (cfi : Cfi) (name : Name) (id : ℕ)
    → get_identifier cfi name ≡ none
    → (cfi' : Cfi) × (add_identified_function cfi name id ≡ some cfi')
      × (cfi'.identified_functions ≡ (name, id) ∷ cfi.identified_functions)
unfolding add_identified_function
add_identified_function-adds cfi name id h = (
  record cfi {
    identified_functions = (name, id) ∷ cfi.identified_functions;
    fun_id_ctr = if leb cfi.fun_id_ctr id then (id + 1) % 2 ^ 32 else cfi.fun_id_ctr;
  },
  rw (add_identified_function, h),
  refl,
)

-- The id in the lines, or else the one before.
abbrev or_before : Option ℕ → Option ℕ → Option ℕ
or_before none before = before
or_before (some id) before = some id

-- One line before the others, which do not name its function.
module _ (cfi mid : Cfi) (e : FileEntry) (es : List FileEntry)
    (added : mid.identified_functions ≡ (e.fct_name, e.id) ∷ cfi.identified_functions)
    (apart : contains (file_names es) e.fct_name ≡ false) where
  still_free :
      (y : Name)
      → contains (file_names es) y ≡ true
      → get_identifier cfi y ≡ none
      → get_identifier mid y ≡ none
  still_free y h free = ap (lookup y) added ∙ elim (Bool-cases (same_name e.fct_name y)) [
    | inl same ↦
        let twice = ap (contains (file_names es)) (same_name_sound e.fct_name y same) in
        absurd (ground arith)
    | inr other ↦ ground arith
  ]

  first_found :
      (cfi' : Cfi) (x : Name)
      → get_identifier cfi' x ≡ or_before (lookup x (file_ids es)) (get_identifier mid x)
      → ((k : ℕ) → lookup x (file_ids es) ≡ some k → contains (file_names es) x ≡ true)
      → get_identifier cfi' x ≡ or_before (lookup x (file_ids (e ∷ es))) (get_identifier cfi x)
  first_found cfi' x found named =
      found
      ∙ ap (or_before (lookup x (file_ids es))) (ap (lookup x) added)
      ∙ elim (Bool-cases (same_name e.fct_name x)) [
        | inr other ↦ ground arith
        | inl same ↦
            let twice = ap (contains (file_names es)) (same_name_sound e.fct_name x same) in
            elim (Option-cases (lookup x (file_ids es))) [
              | inl n ↦ ground arith
              | inr (k, q) ↦ let there = named k q in absurd (ground arith)
            ]
      ]

read_function_ids-step :
    (cfi mid cfi' : Cfi) (e : FileEntry) (es : List FileEntry)
    → add_identified_function cfi e.fct_name e.id ≡ some mid
    → read_function_ids mid es ≡ some cfi'
    → read_function_ids cfi (e ∷ es) ≡ some cfi'
unfolding read_function_ids
read_function_ids-step cfi mid cfi' e es q r = ground (arith, q, r)

lookup-named :
    (es : List FileEntry) (x : Name) (k : ℕ)
    → lookup x (file_ids es) ≡ some k
    → contains (file_names es) x ≡ true
lookup-named [] x k h = absurd (ground arith)
lookup-named (e ∷ es) x k h = elim (Bool-cases (same_name e.fct_name x)) [
  | inl same ↦ ground arith
  | inr other ↦ let later = lookup-named es x k (ground arith) in ground arith
]

-- Lines in which no name stands twice can be read, where none of them has an id.
read_function_ids-returns :
    (cfi : Cfi) (es : List FileEntry) (x : Name)
    → AreOnce (file_names es)
    → ((y : Name) → contains (file_names es) y ≡ true → get_identifier cfi y ≡ none)
    → (cfi' : Cfi) × (read_function_ids cfi es ≡ some cfi')
      × (get_identifier cfi' x ≡ or_before (lookup x (file_ids es)) (get_identifier cfi x))
unfolding read_function_ids
read_function_ids-returns cfi [] x once free = (cfi, refl, refl)
read_function_ids-returns cfi (e ∷ es) x once free =
    let own = free e.fct_name (rw (contains, same_name_refl e.fct_name)) in
    let (mid, q, ids) = add_identified_function-adds cfi e.fct_name e.id own in
    let (cfi', r, found) = read_function_ids-returns mid es x once.1 (λ y h.
      still_free cfi mid e es ids once.0 y h (free y (later_in e.fct_name y (file_names es) h))) in
    (
      cfi',
      read_function_ids-step cfi mid cfi' e es q r,
      first_found cfi mid e es ids once.0 cfi' x found (lookup-named es x),
    )

or_before-none : (o : Option ℕ) → or_before o none ≡ o
or_before-none none = refl
or_before-none (some k) = refl

-- A state without functions reads the lines, and has the ids of the lines.
fresh_reads :
    (next : Cfi) (es : List FileEntry) (x : Name)
    → IsFresh next
    → AreOnce (file_names es)
    → (next' : Cfi) × (read_function_ids next es ≡ some next')
      × (get_identifier next' x ≡ lookup x (file_ids es))
fresh_reads next es x fresh once =
    let empty : (y : Name) → get_identifier next y ≡ none = λ y. ap (lookup y) fresh.no_functions in
    let (next', r, found) = read_function_ids-returns next es x once (λ y h. empty y) in
    (
      next',
      r,
      found
          ∙ ap (or_before (lookup x (file_ids es))) (empty x)
          ∙ or_before-none (lookup x (file_ids es)),
    )

-- Let the lines of the file have ids that are distinct and below `limit`, with room below 2^32
-- for the functions of the module, and let no function have an id yet. Where the pass identifies
-- the functions, it can write the new file from the old one; and where the pass, with no function
-- identified, reads the new file, no assertion fails, and each name has the id that it had
-- before, or none if it had none.
pub written_ids_reread :
    (cfi cfi' next : Cfi) (file : List FileEntry) (fs : List Function) (limit : ℕ)
    (fun_id_file x : Name)
    → IsFresh cfi
    → cfi.fun_id_ctr ≤ limit
    → AreNew limit file []
    → limit + length fs < 2 ^ 32
    → identify_functions cfi file fs ≡ some cfi'
    → IsFresh next
    → (lines : List FileEntry) × (write_function_ids cfi' fun_id_file file ≡ some lines)
      × ((next' : Cfi) × (read_function_ids next lines ≡ some next')
          × (get_identifier next' x ≡ get_identifier cfi' x))
written_ids_reread cfi cfi' next file fs limit fun_id_file x fresh start news room r empty =
    let (numbered, _) =
      identify_functions-IsNumbered cfi cfi' file fs limit fresh start news room r in
    let given = identify_functions-AreFileIds cfi cfi' file fs limit fresh start news room r in
    let (lines, w, ids) =
      write_function_ids-lookup cfi' file fun_id_file x numbered.is_mapped given
        (λ k h. identify_functions-covered cfi cfi' file fs x k fresh r h) in
    let (_, each) =
      write_function_ids-AreOnce cfi' fun_id_file file lines numbered given
        (identify_functions-AreOnce cfi cfi' file fs fresh r) w in
    let (next', read, found) = fresh_reads next lines x empty each in
    (lines, w, (next', read, found ∙ ids))
