-- ===== src/Pass/FunctionIds.antt =====
-- llvm_pass/CFI/CFI.cpp, `writeFunctionIDs`. The maps of names are lists; the order in which
-- `llvm::StringMap` goes through them is not used.
use picon.Base.{ℕ, Bool, true, false, ◌==◌, List, [], ◌∷◌, ◌++◌, Option, none, some}
use picon.Load.Relocations.{same_name}
use picon.Pass.{
  Name, is_declaration, CfiFct, Cfi, FileEntry, contains, is_ignored_function, is_init_function,
  is_fini_function, get_identifier,
}

-- The words of the flags, and the name of the entry point.
-- "Ignored"
abbrev pub flag_ignored : Name
flag_ignored = 73 ∷ 103 ∷ 110 ∷ 111 ∷ 114 ∷ 101 ∷ 100 ∷ []

-- "Init"
abbrev pub flag_init : Name
flag_init = 73 ∷ 110 ∷ 105 ∷ 116 ∷ []

-- "Fini"
abbrev pub flag_fini : Name
flag_fini = 70 ∷ 105 ∷ 110 ∷ 105 ∷ []

-- "Main"
abbrev pub flag_main : Name
flag_main = 77 ∷ 97 ∷ 105 ∷ 110 ∷ []

-- "External"
abbrev pub flag_external : Name
flag_external = 69 ∷ 120 ∷ 116 ∷ 101 ∷ 114 ∷ 110 ∷ 97 ∷ 108 ∷ []

-- "main"
abbrev pub entry_point : Name
entry_point = 109 ∷ 97 ∷ 105 ∷ 110 ∷ []

-- `oldMap[fctName] = std::make_pair(id, flags)`
unfoldable pub put_entry : FileEntry → List FileEntry → List FileEntry
put_entry e [] = e ∷ []
put_entry e (x ∷ xs) = elim (same_name x.fct_name e.fct_name) [
  | true ↦ e ∷ xs
  | false ↦ x ∷ put_entry e xs
]

-- The loop over the lines of the file.
unfoldable pub read_old : List FileEntry → List FileEntry → List FileEntry
read_old [] old = old
read_old (e ∷ es) old = read_old es (put_entry e old)

-- `oldMap.find(fct_name)`
abbrev pub find_entry : Name → List FileEntry → Option FileEntry
find_entry name [] = none
find_entry name (e ∷ es) = elim (same_name e.fct_name name) [
  | true ↦ some e
  | false ↦ find_entry name es
]

-- The flags of a declaration.
abbrev pub declaration_flags : Option FileEntry → Name
declaration_flags none = flag_external
declaration_flags (some e) = elim (same_name e.flags flag_external) [
  | true ↦ flag_external
  | false ↦ e.flags
]

-- The assertion on the identifier in the old file.
abbrev pub id_agrees : Option FileEntry → ℕ → Bool
id_agrees none id = true
id_agrees (some e) id = e.id == id

-- The line of a function of the map, in a file whose name is `fun_id_file`.
unfoldable pub write_function : Cfi → Name → List FileEntry → CfiFct → Option FileEntry
write_function cfi fun_id_file old c =
    let name = c.fun.name in
    let line : Name → Option FileEntry =
      λ flags. some (record { fct_name = name; id = c.id; flags = flags }) in
    elim (id_agrees (find_entry name old) c.id) [
      | false ↦ none
      | true ↦ elim (is_ignored_function cfi name) [
        | true ↦ line flag_ignored
        | false ↦ elim (is_init_function cfi name) [
          | true ↦ line flag_init
          | false ↦ elim (is_fini_function cfi name) [
            | true ↦ line flag_fini
            | false ↦ elim (same_name name entry_point) [
              | true ↦ line flag_main
              | false ↦ elim (is_declaration c.fun) [
                | true ↦ line (declaration_flags (find_entry name old))
                | false ↦ elim (get_identifier cfi name) [
                  | none ↦ none
                  | some id ↦ some (record { fct_name = name; id = id; flags = fun_id_file })
                ]
              ]
            ]
          ]
        ]
      ]
    ]

-- The loop over the map.
unfoldable pub write_functions : Cfi → Name → List FileEntry → List CfiFct → Option (List FileEntry)
write_functions cfi fun_id_file old [] = some []
write_functions cfi fun_id_file old (c ∷ cs) = elim (write_function cfi fun_id_file old c) [
  | none ↦ none
  | some line ↦ elim (write_functions cfi fun_id_file old cs) [
    | none ↦ none
    | some rest ↦ some (line ∷ rest)
  ]
]

-- The keys of `alreadyAdded`, once the map is written.
abbrev pub map_names : List CfiFct → List Name
map_names [] = []
map_names (c ∷ cs) = c.fun.name ∷ map_names cs

-- The loop over `oldMap`: what has not been added.
unfoldable pub left_over : List Name → List FileEntry → List FileEntry
left_over added [] = []
left_over added (e ∷ es) = elim (contains added e.fct_name) [
  | true ↦ left_over added es
  | false ↦ e ∷ left_over added es
]

-- `writeFunctionIDs`: the lines of the new file, from those of the old one.
unfoldable pub write_function_ids : Cfi → Name → List FileEntry → Option (List FileEntry)
write_function_ids cfi fun_id_file file =
    let old = read_old file [] in
    elim (write_functions cfi fun_id_file old cfi.function_map) [
      | none ↦ none
      | some lines ↦ some (lines ++ left_over (map_names cfi.function_map) old)
    ]
