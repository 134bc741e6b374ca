-- ===== src/Pass/Reread.antt =====
-- llvm_pass/CFI/CFI.cpp, `writeFunctionIDs`: the written file against the state of the pass.
use picon.Base.{
  ℕ, ◌≡◌, refl, ◌∙◌, sym, ap, ◌⊎◌, true, false, ◌||◌, List, [], ◌∷◌, ◌++◌, none, some, Option-cases,
  Bool-cases, inl, inr, arith,
}
use picon.Load.Relocations.{same_name}
use picon.Load.Search.{same_name_sound}
use picon.Pass.{
  Name, Function, CfiFct, Cfi, FileEntry, contains, lookup, get_identifier, read_function_ids,
  identify_module, identify_functions,
}
use picon.Pass.Numbered.{AreMapped}
use picon.Pass.FileIds.{IsFresh, AreFileIds, file_ids, AreFileIds-lookup}
use picon.Pass.Covered.{
  file_names, get_identifier-identify_module, get_identifier-read_function_ids,
}
use picon.Pass.Written.{
  AreFileIds-read_old, contains-read_old, write_function-named, write_functions-returns,
}
use picon.Pass.FunctionIds.{
  read_old, write_function, write_functions, map_names, left_over, write_function_ids,
}

-- The lines of the map name its functions, with their ids.
pub write_functions-AreFileIds :
    (cfi : Cfi) (fun_id_file : Name) (old : List FileEntry) (cs : List CfiFct)
    (lines : List FileEntry)
    → AreMapped cfi.identified_functions cs
    → write_functions cfi fun_id_file old cs ≡ some lines
    → AreFileIds cfi lines × (file_names lines ≡ map_names cs)
unfolding write_functions
write_functions-AreFileIds cfi fun_id_file old [] lines h w =
    let q : lines ≡ [] = ground arith in rw q (tt, refl)
write_functions-AreFileIds cfi fun_id_file old (c ∷ cs) lines h w =
    elim (Option-cases (write_function cfi fun_id_file old c)) [
      | inl n ↦ absurd (ground arith)
      | inr (e, first) ↦ elim (Option-cases (write_functions cfi fun_id_file old cs)) [
        | inl n ↦ absurd (ground arith)
        | inr (rest, others) ↦
            let q : lines ≡ e ∷ rest = ground arith in
            let (name, id) = write_function-named cfi fun_id_file old c e h.0 first in
            let (ids, names) = write_functions-AreFileIds cfi fun_id_file old cs rest h.1 others in
            let own : get_identifier cfi e.fct_name ≡ some e.id = rw (name, id) h.0 in
            rw q ((own, ids), rw (name, names))
      ]
    ]

pub left_over-AreFileIds :
    (cfi : Cfi) (names : List Name) (old : List FileEntry)
    → AreFileIds cfi old
    → AreFileIds cfi (left_over names old)
unfolding left_over
left_over-AreFileIds cfi names [] h = tt
left_over-AreFileIds cfi names (e ∷ es) h = elim (Bool-cases (contains names e.fct_name)) [
  | inl b ↦
      let q : left_over names (e ∷ es) ≡ left_over names es = ground arith in
      rw q (left_over-AreFileIds cfi names es h.1)
  | inr b ↦
      let q : left_over names (e ∷ es) ≡ e ∷ left_over names es = ground arith in
      rw q (h.0, left_over-AreFileIds cfi names es h.1)
]

-- What is not among the names is left over.
contains-left_over :
    (names : List Name) (old : List FileEntry) (x : Name)
    → contains names x ≡ false
    → contains (file_names old) x ≡ true
    → contains (file_names (left_over names old)) x ≡ true
unfolding left_over
contains-left_over names [] x h k = k
contains-left_over names (e ∷ es) x h k = elim (Bool-cases (contains names e.fct_name)) [
  | inl b ↦
      let q : left_over names (e ∷ es) ≡ left_over names es = ground arith in
      elim (Bool-cases (same_name e.fct_name x)) [
        | inl s ↦
            let n : contains names e.fct_name ≡ contains names x =
              ap (contains names) (same_name_sound e.fct_name x s) in
            absurd (ground arith)
        | inr s ↦ rw q (contains-left_over names es x h (ground arith))
      ]
  | inr b ↦
      let q : left_over names (e ∷ es) ≡ e ∷ left_over names es = ground arith in
      rw q (elim (Bool-cases (same_name e.fct_name x)) [
        | inl s ↦ ground arith
        | inr s ↦ ground (arith, contains-left_over names es x h (ground arith))
      ])
]

pub AreFileIds-append :
    (cfi : Cfi) (a b : List FileEntry)
    → AreFileIds cfi a
    → AreFileIds cfi b
    → AreFileIds cfi (a ++ b)
AreFileIds-append cfi [] b h k = k
AreFileIds-append cfi (e ∷ a) b h k = (h.0, AreFileIds-append cfi a b h.1 k)

contains-append :
    (a b : List FileEntry) (x : Name)
    → contains (file_names (a ++ b)) x ≡ (contains (file_names a) x || contains (file_names b) x)
contains-append [] b x = refl
contains-append (e ∷ a) b x = elim (Bool-cases (same_name e.fct_name x)) [
  | inl s ↦ ground arith
  | inr s ↦ ground (arith, contains-append a b x)
]

-- A name in the lines is found.
lookup-contains :
    (file : List FileEntry) (x : Name)
    → contains (file_names file) x ≡ true
    → (k : ℕ) × (lookup x (file_ids file) ≡ some k)
lookup-contains [] x h = absurd (ground arith)
lookup-contains (e ∷ es) x h = elim (Bool-cases (same_name e.fct_name x)) [
  | inl s ↦ (e.id, ground arith)
  | inr s ↦ let (k, q) = lookup-contains es x (ground arith) in (k, ground arith)
]

-- Lines that have the ids of their names, and every name that has one, give each name its id.
lookup-file_ids :
    (cfi : Cfi) (file : List FileEntry) (x : Name)
    → AreFileIds cfi file
    → ((k : ℕ) → get_identifier cfi x ≡ some k → contains (file_names file) x ≡ true)
    → lookup x (file_ids file) ≡ get_identifier cfi x
lookup-file_ids cfi file x h covered = elim (Option-cases (lookup x (file_ids file))) [
  | inr (k, q) ↦ q ∙ sym (AreFileIds-lookup cfi file x k h q)
  | inl n ↦ elim (Option-cases (get_identifier cfi x)) [
    | inl n' ↦ n ∙ sym n'
    | inr (k, q) ↦ let (k', q') = lookup-contains file x (covered k q) in absurd (ground arith)
  ]
]

pub identify_functions-covered :
    (cfi cfi' : Cfi) (file : List FileEntry) (fs : List Function) (x : Name) (k : ℕ)
    → IsFresh cfi
    → identify_functions cfi file fs ≡ some cfi'
    → get_identifier cfi' x ≡ some k
    → (contains (map_names cfi'.function_map) x ≡ true) ⊎ (contains (file_names file) x ≡ true)
unfolding identify_functions
identify_functions-covered cfi cfi' file fs x k fresh r h =
    elim (Option-cases (read_function_ids cfi file)) [
      | inl n ↦ absurd (ground arith)
      | inr (mid, q) ↦
          let same : identify_module mid fs ≡ cfi' = ground arith in
          let found : get_identifier (identify_module mid fs) x ≡ some k = rw same h in
          elim (get_identifier-identify_module mid fs x k found) [
            | inl there ↦ inl (ap (λ c. contains (map_names c.function_map) x) (sym same) ∙ there)
            | inr before ↦ elim (get_identifier-read_function_ids cfi mid file x k q before) [
              | inl there ↦ inr there
              | inr empty ↦
                  let none_yet : get_identifier cfi x ≡ none = ap (lookup x) fresh.no_functions in
                  absurd (ground arith)
            ]
          ]
    ]

-- What is written of a state whose map and ids agree, and whose file has its ids.
module _ (cfi : Cfi) (file : List FileEntry) (fun_id_file x : Name)
    (mapped : AreMapped cfi.identified_functions cfi.function_map) (given : AreFileIds cfi file)
    (covered : (k : ℕ)
      → get_identifier cfi x ≡ some k
      → (contains (map_names cfi.function_map) x ≡ true)
        ⊎ (contains (file_names file) x ≡ true)) where
  -- The lines of the map, and what is left over of the old file.
  whole_file :
      (own : List FileEntry)
      → write_functions cfi fun_id_file (read_old file []) cfi.function_map ≡ some own
      → lookup x (file_ids (own ++ left_over (map_names cfi.function_map) (read_old file [])))
        ≡ get_identifier cfi x
  whole_file own q =
      let old = read_old file [] in
      let names = map_names cfi.function_map in
      let old_ids = AreFileIds-read_old cfi file [] given tt in
      let (ids, named) =
        write_functions-AreFileIds cfi fun_id_file old cfi.function_map own mapped q in
      let all : AreFileIds cfi (own ++ left_over names old) =
        AreFileIds-append cfi own (left_over names old) ids
          (left_over-AreFileIds cfi names old old_ids) in
      lookup-file_ids cfi (own ++ left_over names old) x all (λ k h.
        rw (contains-append own (left_over names old) x, named)
          (elim (Bool-cases (contains names x)) [
            | inl b ↦ ground arith
            | inr b ↦ elim (covered k h) [
              | inl c ↦ absurd (ground arith)
              | inr c ↦
                  let left =
                    contains-left_over names old x b (contains-read_old file [] x (inl c)) in
                  ground arith
            ]
          ]))

  pub write_function_ids-lookup :
      (lines : List FileEntry) × (write_function_ids cfi fun_id_file file ≡ some lines)
      × (lookup x (file_ids lines) ≡ get_identifier cfi x)
  unfolding write_function_ids
  write_function_ids-lookup =
      let old = read_old file [] in
      let (own, q) =
        write_functions-returns cfi fun_id_file old cfi.function_map
          (AreFileIds-read_old cfi file [] given tt) mapped in
      (
        own ++ left_over (map_names cfi.function_map) old,
        rw (write_function_ids, q),
        whole_file own q,
      )
