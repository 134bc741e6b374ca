-- ===== src/Pass/Covered.antt =====
-- llvm_pass/CFI/CFI.cpp, `IdentifyFunctions`: a function that has an id is one of the file or one
-- of the map.
use picon.Base.{
  ℕ, ◌≡◌, ◌∙◌, sym, ap, ◌⊎◌, true, ◌||◌, List, [], ◌∷◌, some, Option-cases, Bool-cases, inl, inr,
  arith, or_right, refl, false,
}
use picon.Load.Relocations.{same_name}
use picon.Load.Search.{same_name_sound}
use picon.Pass.{
  Name, Function, CfiFct, put_fct, has_fct, replace_fct, Cfi, FileEntry, contains, lookup,
  get_identifier, identify_function, add_identified_function, read_function_ids,
  is_ignored_function, identify_module,
}
use picon.Pass.Numbered.{mapped}
use picon.Pass.FunctionIds.{map_names}

abbrev pub file_names : List FileEntry → List Name
file_names [] = []
file_names (e ∷ es) = e.fct_name ∷ file_names es

-- A new id is that of the function it is given to.
lookup-cons :
    (name x : Name) (id k : ℕ) (l : List (Name × ℕ))
    → lookup x ((name, id) ∷ l) ≡ some k
    → (same_name name x ≡ true) ⊎ (lookup x l ≡ some k)
lookup-cons name x id k l h = elim (Bool-cases (same_name name x)) [
  | inl same ↦ inl same
  | inr apart ↦ inr (ground arith)
]

has_fct-map_names :
    (name : Name) (cs : List CfiFct) → has_fct name cs ≡ contains (map_names cs) name
has_fct-map_names name [] = refl
has_fct-map_names name (c ∷ cs) =
    ap (λ b. elim (same_name c.fun.name name) [ true ↦ true | false ↦ b ])
      (has_fct-map_names name cs)

map_names-replace_fct :
    (c : CfiFct) (cs : List CfiFct) → map_names (replace_fct c cs) ≡ map_names cs
map_names-replace_fct c [] = refl
map_names-replace_fct c (x ∷ xs) = elim (Bool-cases (same_name x.fun.name c.fun.name)) [
  | inl s ↦
      let e : replace_fct c (x ∷ xs) ≡ c ∷ xs = ground arith in
      ap map_names e ∙ ap (λ n. n ∷ map_names xs) (sym (same_name_sound x.fun.name c.fun.name s))
  | inr s ↦
      let e : replace_fct c (x ∷ xs) ≡ x ∷ replace_fct c xs = ground arith in
      ap map_names e ∙ ap (λ l. x.fun.name ∷ l) (map_names-replace_fct c xs)
]

-- The names of the map with one name, which it may have already.
abbrev pub insert_fct_name : Name → List Name → List Name
insert_fct_name n names = elim (contains names n) [ true ↦ names | false ↦ n ∷ names ]

map_names-put_fct :
    (c : CfiFct) (cs : List CfiFct)
    → map_names (put_fct c cs) ≡ insert_fct_name c.fun.name (map_names cs)
map_names-put_fct c cs = elim (Bool-cases (has_fct c.fun.name cs)) [
  | inl s ↦
      let e : put_fct c cs ≡ replace_fct c cs = ground arith in
      let known = sym (has_fct-map_names c.fun.name cs) ∙ s in
      ap map_names e
      ∙ map_names-replace_fct c cs
      ∙ ap (λ b. elim b [ true ↦ map_names cs | false ↦ c.fun.name ∷ map_names cs ]) (sym known)
  | inr s ↦
      let e : put_fct c cs ≡ c ∷ cs = ground arith in
      let unknown = sym (has_fct-map_names c.fun.name cs) ∙ s in
      ap map_names e
      ∙ ap (λ b. elim b [ true ↦ map_names cs | false ↦ c.fun.name ∷ map_names cs ]) (sym unknown)
]

pub map_names-mapped :
    (cfi : Cfi) (f : Function)
    → map_names (mapped cfi f).function_map ≡ insert_fct_name f.name (map_names cfi.function_map)
unfolding identify_function
map_names-mapped cfi f = elim (Option-cases (lookup f.name cfi.identified_functions)) [
  | inl new ↦
      rw (mapped, identify_function, new)
        (map_names-put_fct (record { fun = f; id = cfi.fun_id_ctr }) cfi.function_map)
  | inr (id, known) ↦
      rw (mapped, identify_function, known)
        (map_names-put_fct (record { fun = f; id = id }) cfi.function_map)
]

pub contains-insert_fct_name :
    (n : Name) (names : List Name) (x : Name)
    → contains (insert_fct_name n names) x ≡ (same_name n x || contains names x)
contains-insert_fct_name n names x = elim (Bool-cases (contains names n)) [
  | inl old ↦ elim (Bool-cases (same_name n x)) [
    | inl same ↦ let here = ap (contains names) (same_name_sound n x same) in ground arith
    | inr other ↦ ground arith
  ]
  | inr new ↦ elim (Bool-cases (same_name n x)) [ inl s ↦ ground arith | inr s ↦ ground arith ]
]

-- It has the name and those that it had.
mapped-named :
    (cfi : Cfi) (f : Function) (x : Name)
    → contains (map_names (mapped cfi f).function_map) x
      ≡ (same_name f.name x || contains (map_names cfi.function_map) x)
mapped-named cfi f x =
    ap (λ l. contains l x) (map_names-mapped cfi f)
    ∙ contains-insert_fct_name f.name (map_names cfi.function_map) x

get_identifier-mapped :
    (cfi : Cfi) (f : Function) (x : Name) (k : ℕ)
    → get_identifier (mapped cfi f) x ≡ some k
    → (same_name f.name x ≡ true) ⊎ (get_identifier cfi x ≡ some k)
unfolding identify_function
get_identifier-mapped cfi f x k h = elim (Option-cases (lookup f.name cfi.identified_functions)) [
  | inr (id, known) ↦ inr (ground arith)
  | inl new ↦ lookup-cons f.name x cfi.fun_id_ctr k cfi.identified_functions (ground arith)
]

-- The map grows.
contains-identify_module :
    (cfi : Cfi) (fs : List Function) (x : Name)
    → contains (map_names cfi.function_map) x ≡ true
    → contains (map_names (identify_module cfi fs).function_map) x ≡ true
unfolding identify_module
contains-identify_module cfi [] x h = h
contains-identify_module cfi (f ∷ fs) x h =
    elim (Bool-cases (is_ignored_function cfi f.name || f.is_intrinsic)) [
      | inl skipped ↦
          let q : identify_module cfi (f ∷ fs) ≡ identify_module cfi fs = ground arith in
          rw q (contains-identify_module cfi fs x h)
      | inr seen ↦
          let q : identify_module cfi (f ∷ fs) ≡ identify_module (mapped cfi f) fs = ground arith in
          let grown : contains (map_names (mapped cfi f).function_map) x ≡ true =
            mapped-named cfi f x
            ∙ or_right (same_name f.name x) (contains (map_names cfi.function_map) x) h in
          rw q (contains-identify_module (mapped cfi f) fs x grown)
    ]

pub get_identifier-identify_module :
    (cfi : Cfi) (fs : List Function) (x : Name) (k : ℕ)
    → get_identifier (identify_module cfi fs) x ≡ some k
    → (contains (map_names (identify_module cfi fs).function_map) x ≡ true)
      ⊎ (get_identifier cfi x ≡ some k)
unfolding identify_module
get_identifier-identify_module cfi [] x k h = inr h
get_identifier-identify_module cfi (f ∷ fs) x k h =
    elim (Bool-cases (is_ignored_function cfi f.name || f.is_intrinsic)) [
      | inl skipped ↦
          let q : identify_module cfi (f ∷ fs) ≡ identify_module cfi fs = ground arith in
          rw q (get_identifier-identify_module cfi fs x k (rw (sym q) h))
      | inr seen ↦
          let q : identify_module cfi (f ∷ fs) ≡ identify_module (mapped cfi f) fs = ground arith in
          rw q (elim (get_identifier-identify_module (mapped cfi f) fs x k (rw (sym q) h)) [
            | inl there ↦ inl there
            | inr before ↦ elim (get_identifier-mapped cfi f x k before) [
              | inr before' ↦ inr before'
              | inl same ↦
                  let grown : contains (map_names (mapped cfi f).function_map) x ≡ true =
                    mapped-named cfi f x ∙ rw same refl in
                  inl (contains-identify_module (mapped cfi f) fs x grown)
            ]
          ])
    ]

add_identified_function-covered :
    (cfi cfi' : Cfi) (e : FileEntry) (x : Name) (k : ℕ)
    → add_identified_function cfi e.fct_name e.id ≡ some cfi'
    → get_identifier cfi' x ≡ some k
    → (same_name e.fct_name x ≡ true) ⊎ (get_identifier cfi x ≡ some k)
unfolding add_identified_function
add_identified_function-covered cfi cfi' e x k h q =
    elim (Option-cases (lookup e.fct_name cfi.identified_functions)) [
      | inr (id, known) ↦ absurd (ground arith)
      | inl new ↦
          let own : cfi'.identified_functions ≡ (e.fct_name, e.id) ∷ cfi.identified_functions =
            ground arith in
          lookup-cons e.fct_name x e.id k cfi.identified_functions (ap (lookup x) (sym own) ∙ q)
    ]

pub get_identifier-read_function_ids :
    (cfi cfi' : Cfi) (file : List FileEntry) (x : Name) (k : ℕ)
    → read_function_ids cfi file ≡ some cfi'
    → get_identifier cfi' x ≡ some k
    → (contains (file_names file) x ≡ true) ⊎ (get_identifier cfi x ≡ some k)
unfolding read_function_ids
get_identifier-read_function_ids cfi cfi' [] x k r h =
    let same : cfi' ≡ cfi = ground arith in inr (rw (sym same) h)
get_identifier-read_function_ids cfi cfi' (e ∷ es) x k r h =
    elim (Option-cases (add_identified_function cfi e.fct_name e.id)) [
      | inl n ↦ absurd (ground arith)
      | inr (next, q) ↦ elim (get_identifier-read_function_ids next cfi' es x k (ground arith) h) [
        | inl later ↦ inl (ground arith)
        | inr before ↦ elim (add_identified_function-covered cfi next e x k q before) [
          | inl same ↦ inl (ground arith)
          | inr before' ↦ inr before'
        ]
      ]
    ]
