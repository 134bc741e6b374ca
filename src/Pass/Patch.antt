-- ===== src/Pass/Patch.antt =====
-- llvm_pass/CFI/CFI.cpp, `PatchCtorFunctions`, `PatchDtorFunctions` and `ParseAnnotations`: what
-- the pass reads in the global variables of a module. A constant of LLVM is what the casts of the
-- pass tell apart; `report_fatal_error` and an access that is none are `none`.
use picon.Base.{ℕ, Bool, true, false, ltb, List, [], ◌∷◌, Option, none, some}
use picon.Load.Relocations.{same_name}
use picon.Pass.{Name, Cfi, contains}

-- A constant that is to be a function: NULL, a function, a constant expression that casts another
-- constant, another constant expression, or another constant.
pub data Pointer : Type 0 where
  null expression other_pointer : Pointer
  function : Name → Pointer
  cast : Pointer → Pointer

-- A constant that is to be a text: NULL, a constant expression that casts another constant,
-- another constant expression, or another constant; with the text that its first operand holds,
-- if that is a global variable.
pub data Text : Type 0 where
  null_text : Text
  cast_text : Option Name → Text → Text
  element_text constant_text : Option Name → Text

-- An element of a list of functions to run, or of annotations: its function, and its text.
pub data Element {ℓ} (A : Type ℓ) : Type ℓ where
  struct : A → Element A
  other_element : Element A

-- A global variable: whether it has an operand, its initializer, which may be no array, and its
-- uses.
pub record Global (A : Type 0) : Type 0 where
  pub has_operand : Bool
  pub initializer : Option (Option (List (Element A)))
  pub num_uses : ℕ

-- The global variables "llvm.global_ctors", "llvm.global_dtors" and "llvm.global.annotations" of a
-- module, and its functions of local linkage and those of hidden visibility.
pub record Globals : Type 0 where
  pub ctors : Option (Global Pointer)
  pub dtors : Option (Global Pointer)
  pub annotations : Option (Global (Pointer × Text))
  pub local_functions : List Name
  pub hidden_functions : List Name

-- `FP` after the cast is stripped, as a function.
abbrev pub as_function : Pointer → Option Name
as_function (function name) = some name
as_function (cast (function name)) = some name
as_function _ = none

-- `llvm::StringSet<>::insert`
abbrev pub insert_name : Name → List Name → List Name
insert_name name names = elim (contains names name) [ true ↦ names | false ↦ name ∷ names ]

-- `F->setLinkage(ExternalLinkage)`, for a function of local linkage.
abbrev pub without : Name → List Name → List Name
without name [] = []
without name (n ∷ names) = elim (same_name n name) [
  | true ↦ without name names
  | false ↦ n ∷ without name names
]

-- `F->setLinkage` and `F->setVisibility`
unfoldable pub expose : Name → Globals → Globals
expose name g = record g {
  local_functions = elim (contains g.local_functions name) [
    | true ↦ without name g.local_functions
    | false ↦ g.local_functions
  ];
  hidden_functions = insert_name name g.hidden_functions;
}

-- The loop over the elements of a list of functions: what is exposed, and the names that are
-- inserted. It stops at a NULL.
unfoldable pub patch_elements :
    List (Element Pointer) → Globals × List Name → Option (Globals × List Name)
patch_elements [] st = some st
patch_elements (other_element ∷ es) st = none
patch_elements (struct null ∷ es) st = some st
patch_elements (struct p ∷ es) st = elim (as_function p) [
  | none ↦ none
  | some name ↦ patch_elements es (expose name st.0, insert_name name st.1)
]

-- What `PatchCtorFunctions` and `PatchDtorFunctions` do with the variable, in the same text:
-- whether it is removed, the globals and the set of functions.
unfoldable pub patch_functions :
    Option (Global Pointer) → Globals × List Name → Option (Bool × Globals × List Name)
patch_functions none st = some (false, st.0, st.1)
patch_functions (some v) st = elim v.has_operand [
  | false ↦ some (false, st.0, st.1)
  | true ↦ elim v.initializer [
    | none ↦ none
    | some none ↦ none
    | some (some es) ↦ elim (patch_elements es st) [
      | none ↦ none
      | some st' ↦ elim (ltb 0 v.num_uses) [ true ↦ none | false ↦ some (true, st'.0, st'.1) ]
    ]
  ]
]

-- `PatchCtorFunctions`
unfoldable pub patch_ctor_functions : Globals → Cfi → Option (Globals × Cfi)
patch_ctor_functions g cfi = elim (patch_functions g.ctors (g, cfi.init_functions)) [
  | none ↦ none
  | some (removed, g', names) ↦ some (
    record g' { ctors = elim removed [ true ↦ none | false ↦ g'.ctors ] },
    record cfi { init_functions = names },
  )
]

-- `PatchDtorFunctions`
unfoldable pub patch_dtor_functions : Globals → Cfi → Option (Globals × Cfi)
patch_dtor_functions g cfi = elim (patch_functions g.dtors (g, cfi.fini_functions)) [
  | none ↦ none
  | some (removed, g', names) ↦ some (
    record g' { dtors = elim removed [ true ↦ none | false ↦ g'.dtors ] },
    record cfi { fini_functions = names },
  )
]

-- `ANNOTATION_IGNORE_BLOCK`, "cfi_ignore_blocks"
abbrev pub annotation_ignore_block : Name
annotation_ignore_block =
    99 ∷ 102 ∷ 105 ∷ 95 ∷ 105 ∷ 103 ∷ 110 ∷ 111 ∷ 114 ∷ 101 ∷ 95 ∷ 98 ∷ 108 ∷ 111 ∷ 99 ∷ 107 ∷ 115
    ∷ []

-- The text of an annotation: `SP` has to be a constant expression, a cast is stripped, and the
-- first operand of what is left has to be a global variable with a text.
abbrev pub operand_text : Text → Option Name
operand_text (element_text s) = s
operand_text (constant_text s) = s
operand_text (cast_text s t) = s
operand_text null_text = none

abbrev pub as_text : Text → Option Name
as_text (cast_text s t) = operand_text t
as_text (element_text s) = s
as_text _ = none

-- The loop over the annotations: the functions whose blocks are ignored.
unfoldable pub parse_elements : List (Element (Pointer × Text)) → List Name → Option (List Name)
parse_elements [] names = some names
parse_elements (other_element ∷ es) names = none
parse_elements (struct (null, t) ∷ es) names = some names
parse_elements (struct (p, t) ∷ es) names = elim (as_function p) [
  | none ↦ none
  | some name ↦ elim t [
    | null_text ↦ some names
    | t ↦ elim (as_text t) [
      | none ↦ none
      | some s ↦ parse_elements es (elim (same_name s annotation_ignore_block) [
        | true ↦ insert_name name names
        | false ↦ names
      ])
    ]
  ]
]

-- `ParseAnnotations`
unfoldable pub parse_annotations : Globals → Cfi → Option Cfi
parse_annotations g cfi = elim g.annotations [
  | none ↦ some cfi
  | some v ↦ elim v.has_operand [
    | false ↦ some cfi
    | true ↦ elim v.initializer [
      | none ↦ none
      | some none ↦ none
      | some (some es) ↦ elim (parse_elements es cfi.ignored_blocks_functions) [
        | none ↦ none
        | some names ↦ elim (ltb 0 v.num_uses) [
          | true ↦ none
          | false ↦ some (record cfi { ignored_blocks_functions = names })
        ]
      ]
    ]
  ]
]
