-- ===== src/Pass/FileIds.antt =====
-- llvm_pass/CFI/CFI.cpp, `IdentifyFunctions`: the identifiers that the file of function ids gives.
use picon.Base.{
  ℕ, ◌+◌, ◌%◌, ◌^◌, ◌<◌, ◌≤◌, ◌≡◌, ◌∙◌, sym, false, leb, List, [], ◌∷◌, none, some, length,
  Option-cases, Bool-cases, inl, inr, arith, if◌then◌else◌,
}
use picon.Load.Rows.{occurs}
use picon.Load.Relocations.{same_name}
use picon.Load.Search.{same_name_sound}
use picon.Pass.{
  Name, Function, Cfi, FileEntry, lookup, get_identifier, add_identified_function,
  read_function_ids, identify_module, identify_functions,
}
use picon.Pass.Numbered.{
  IsNumbered, Numbers, AreNew, ids, AllBelow-le, AreMapped-new, lookup-new, lookup_self,
  identify_module-Numbers,
}

-- The names and ids of the lines.
abbrev pub file_ids : List FileEntry → List (Name × ℕ)
file_ids [] = []
file_ids (e ∷ es) = (e.fct_name, e.id) ∷ file_ids es

-- Each line has the id of its name.
abbrev pub AreFileIds : Cfi → List FileEntry → Type 0
AreFileIds cfi [] = Unit {0}
AreFileIds cfi (e ∷ es) = (get_identifier cfi e.fct_name ≡ some e.id) × AreFileIds cfi es

-- The state after a line is read.
abbrev added : Cfi → FileEntry → Cfi
added cfi e = record cfi {
  identified_functions = (e.fct_name, e.id) ∷ cfi.identified_functions;
  fun_id_ctr = if leb cfi.fun_id_ctr e.id then e.id + 1 else cfi.fun_id_ctr;
}

added_counter :
    (c i : ℕ)
    → let n = if leb c i then i + 1 else c in (i < n) × (c ≤ n) × ((m : ℕ) → c ≤ m → i < m → n ≤ m)
added_counter c i = elim (Bool-cases (leb c i)) [
  | inl up ↦ rw up (omega arith, ground arith, λ m p q. omega (arith, q))
  | inr stays ↦ rw stays (ground arith, omega arith, λ m p q. p)
]

add_identified_function-added :
    (cfi : Cfi) (e : FileEntry)
    → e.id + 1 < 2 ^ 32
    → lookup e.fct_name cfi.identified_functions ≡ none
    → add_identified_function cfi e.fct_name e.id ≡ some (added cfi e)
unfolding add_identified_function
add_identified_function-added cfi e w new =
    let fits : (e.id + 1) % 2 ^ 32 ≡ e.id + 1 = omega (arith, w) in
    rw (add_identified_function, new, fits)

-- A name that has an id already is refused.
add_identified_function-known :
    (cfi : Cfi) (e : FileEntry) (id : ℕ)
    → lookup e.fct_name cfi.identified_functions ≡ some id
    → add_identified_function cfi e.fct_name e.id ≡ none
unfolding add_identified_function
add_identified_function-known cfi e id known = rw (add_identified_function, known)

added-IsNumbered :
    (cfi : Cfi) (e : FileEntry)
    → lookup e.fct_name cfi.identified_functions ≡ none
    → occurs e.id (ids cfi.identified_functions) ≡ false
    → IsNumbered cfi
    → IsNumbered (added cfi e)
added-IsNumbered cfi e new free h =
    let (own, up, _) = added_counter cfi.fun_id_ctr e.id in
    record {
      below = (
        own,
        AllBelow-le cfi.fun_id_ctr (added cfi e).fun_id_ctr (ids cfi.identified_functions) up
            h.below,
      );
      distinct = (free, h.distinct);
      is_mapped =
          AreMapped-new e.fct_name e.id cfi.identified_functions cfi.function_map new h.is_mapped;
    }

-- What reading the lines does to the state.
record Reads (cfi' cfi : Cfi) (file : List FileEntry) (limit : ℕ) : Type 0 where
  numbered : IsNumbered cfi'
  kept_ids : (x : Name) (k : ℕ) → get_identifier cfi x ≡ some k → get_identifier cfi' x ≡ some k
  file_kept : AreFileIds cfi' file
  counter : cfi'.fun_id_ctr ≤ limit

-- What is looked up in such lines is the id of the name.
pub AreFileIds-lookup :
    (cfi : Cfi) (file : List FileEntry) (x : Name) (k : ℕ)
    → AreFileIds cfi file
    → lookup x (file_ids file) ≡ some k
    → get_identifier cfi x ≡ some k
AreFileIds-lookup cfi [] x k h q = absurd (ground arith)
AreFileIds-lookup cfi (e ∷ es) x k h q = elim (Bool-cases (same_name e.fct_name x)) [
  | inl same ↦ rw (sym (same_name_sound e.fct_name x same)) (h.0 ∙ (ground arith))
  | inr apart ↦ AreFileIds-lookup cfi es x k h.1 (ground arith)
]

read_function_ids-Reads :
    (cfi cfi' : Cfi) (file : List FileEntry) (limit : ℕ)
    → IsNumbered cfi
    → AreNew limit file (ids cfi.identified_functions)
    → cfi.fun_id_ctr ≤ limit
    → limit < 2 ^ 32
    → read_function_ids cfi file ≡ some cfi'
    → Reads cfi' cfi file limit
unfolding read_function_ids
read_function_ids-Reads cfi cfi' [] limit h fresh c w r =
    let same : cfi' ≡ cfi = ground arith in
    rw same (record { numbered = h; kept_ids = λ x k q. q; file_kept = tt; counter = c })
read_function_ids-Reads cfi cfi' (e ∷ es) limit h fresh c w r =
    elim (Option-cases (lookup e.fct_name cfi.identified_functions)) [
      | inr (id, known) ↦
          let refused = add_identified_function-known cfi e id known in absurd (ground arith)
      | inl new ↦
          let put = add_identified_function-added cfi e (omega (arith, w, fresh.0)) new in
          let (_, _, least) = added_counter cfi.fun_id_ctr e.id in
          let n =
            read_function_ids-Reads (added cfi e) cfi' es limit
              (added-IsNumbered cfi e new fresh.1 h) fresh.2 (least limit c fresh.0) w
              (ground arith) in
          record {
            numbered = n.numbered;
            kept_ids = λ x k q.
                n.kept_ids x k (lookup-new e.fct_name x e.id k cfi.identified_functions new q);
            file_kept = (
              n.kept_ids e.fct_name e.id (lookup_self e.fct_name e.id cfi.identified_functions),
              n.file_kept,
            );
            counter = n.counter;
          }
    ]

-- Before the functions are identified.
pub record IsFresh (cfi : Cfi) : Type 0 where
  pub no_functions : cfi.identified_functions ≡ []
  pub no_map : cfi.function_map ≡ []

kept-AreFileIds :
    (cfi cfi' : Cfi) (file : List FileEntry)
    → ((x : Name) (k : ℕ) → get_identifier cfi x ≡ some k → get_identifier cfi' x ≡ some k)
    → AreFileIds cfi file
    → AreFileIds cfi' file
kept-AreFileIds cfi cfi' [] kept h = tt
kept-AreFileIds cfi cfi' (e ∷ es) kept h =
    (kept e.fct_name e.id h.0, kept-AreFileIds cfi cfi' es kept h.1)

IsFresh-IsNumbered : (cfi : Cfi) → IsFresh cfi → IsNumbered cfi
IsFresh-IsNumbered cfi h = record {
  below = rw h.no_functions tt;
  distinct = rw h.no_functions tt;
  is_mapped = rw h.no_map tt;
}

-- The two loops one after the other.
module _ (cfi cfi' : Cfi) (file : List FileEntry) (fs : List Function) (limit : ℕ)
    (fresh : IsFresh cfi) (start : cfi.fun_id_ctr ≤ limit) (news : AreNew limit file [])
    (room : limit + length fs < 2 ^ 32)
    (returned : identify_functions cfi file fs ≡ some cfi') where
  both_loops :
      (mid : Cfi) × Reads mid cfi file limit
      × (cfi' ≡ identify_module mid fs)
      × Numbers (identify_module mid fs) mid (length fs)
  unfolding identify_functions
  both_loops = elim (Option-cases (read_function_ids cfi file)) [
    | inl n ↦ absurd (ground arith)
    | inr (mid, q) ↦
        let first =
          read_function_ids-Reads cfi mid file limit (IsFresh-IsNumbered cfi fresh)
            (rw fresh.no_functions news) start (omega (arith, room)) q in
        (
          mid,
          first,
          ground arith,
          identify_module-Numbers mid fs (omega (arith, room, first.counter)) first.numbered,
        )
  ]

  -- Every line of the file has the id of its name.
  pub identify_functions-AreFileIds : AreFileIds cfi' file
  identify_functions-AreFileIds =
      let (mid, first, same, n) = both_loops in
      rw same (kept-AreFileIds mid (identify_module mid fs) file n.kept_ids first.file_kept)

  -- Let the lines of the file have ids that are distinct and below `limit`, with room below 2^32
  -- for the functions of the module, and let no function have an id yet. When the pass has
  -- identified the functions, each name that the file gives an id has that id.
  pub file_ids_kept :
      (x : Name) (id : ℕ) → lookup x (file_ids file) ≡ some id → get_identifier cfi' x ≡ some id
  file_ids_kept x id h = AreFileIds-lookup cfi' file x id identify_functions-AreFileIds h

  -- Let the lines of the file have ids that are distinct and below `limit`, with room below 2^32
  -- for the functions of the module, and let no function have an id yet. When the pass has
  -- identified the functions, each function of the map has the id of its name, no id belongs to
  -- two names, and every id is below the counter, which is at most `limit` and the number of
  -- functions.
  pub identify_functions-IsNumbered : IsNumbered cfi' × (cfi'.fun_id_ctr ≤ limit + length fs)
  identify_functions-IsNumbered =
      let (mid, first, same, n) = both_loops in
      (rw same n.numbered, rw same (omega (arith, n.counter, first.counter)))
