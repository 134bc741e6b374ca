-- ===== src/Pass.antt =====
-- llvm_pass/CFI/CFI.cpp and llvm_pass/CFI/CFI.hh: the functions of a compiled module and their
-- identifiers. LLVM's representation of a module enters as what the pass asks of it. An assertion
-- that fails and `report_fatal_error` are `none`.
pub mod Files
pub mod Inject
pub mod Patch
pub mod Postdom
pub mod Compile
pub mod Erased
pub mod Places
pub mod Layout
pub mod Jumps
pub mod Announced
pub mod CallsListed
pub mod FunctionIds
pub mod Covered
pub mod Written
pub mod Reread
pub mod Distinct
pub mod Once
pub mod Build
pub mod NextFile
pub mod Roundtrip
pub mod Modules
pub mod Exposed
pub mod Annotated
pub mod Constructors
pub mod PostdomLaws
mod BuildTests
mod PatchTests
pub mod FileIds
pub mod Numbered
mod Tests
use picon.Base.{
  ℕ, zero, suc, ◌+◌, ◌%◌, ◌^◌, Bool, true, false, ◌==◌, leb, ltb, if◌then◌else◌, List, [], ◌∷◌,
  ◌++◌, Option, none, some,
}
use picon.Load.Relocations.{same_name}

-- The bytes of a name.
abbrev pub Name : Type 0
Name = List ℕ

-- An instruction, as the pass tells them apart. A call names its function, and whether that is an
-- intrinsic of LLVM.
pub data Instruction : Type 0 where
  invoke inline_asm indirect_call other : Instruction
  direct_call : Name → Bool → Instruction

-- A basic block: its PHI nodes, which are no calls, the instructions that follow, and the blocks
-- that its terminator goes to, by their places in the function.
pub record Block : Type 0 where
  pub phis : List Instruction
  pub body : List Instruction
  pub successors : List ℕ

-- A function; a declaration has no blocks.
pub record Function : Type 0 where
  pub name : Name
  pub is_intrinsic : Bool
  pub blocks : List Block

abbrev pub is_declaration : Function → Bool
is_declaration f = elim f.blocks [ [] ↦ true | _ ↦ false ]

-- `llvm::StringMap<int>`, in the order of insertion.
abbrev pub lookup : Name → List (Name × ℕ) → Option ℕ
lookup name [] = none
lookup name ((n, id) ∷ rest) = elim (same_name n name) [ true ↦ some id | false ↦ lookup name rest ]

-- `llvm::StringSet<>`
abbrev pub contains : List Name → Name → Bool
contains [] name = false
contains (n ∷ rest) name = elim (same_name n name) [ true ↦ true | false ↦ contains rest name ]

-- `CFIFct`: the block at place `i` has the id `i`.
pub record CfiFct : Type 0 where
  pub fun : Function
  pub id : ℕ

-- The members of `ControlFlowIntegrity` that its operations change or read.
pub record Cfi : Type 0 where
  pub function_map : List CfiFct
  pub identified_functions : List (Name × ℕ)
  pub ignored_functions : List Name
  pub init_functions : List Name
  pub fini_functions : List Name
  pub ignored_blocks_functions : List Name
  pub fun_id_ctr : ℕ

-- `isIgnoredFunction`, `isInitFunction`, `isFiniFunction`, `isIgnoredBlocksFunction`
abbrev pub is_ignored_function : Cfi → Name → Bool
is_ignored_function cfi name = contains cfi.ignored_functions name

abbrev pub is_init_function : Cfi → Name → Bool
is_init_function cfi name = contains cfi.init_functions name

abbrev pub is_fini_function : Cfi → Name → Bool
is_fini_function cfi name = contains cfi.fini_functions name

abbrev pub is_ignored_blocks_function : Cfi → Name → Bool
is_ignored_blocks_function cfi name = contains cfi.ignored_blocks_functions name

-- `IdentifyFunction`
unfoldable pub identify_function : Cfi → Name → Cfi × ℕ
identify_function cfi name = elim (lookup name cfi.identified_functions) [
  | some id ↦ (cfi, id)
  | none ↦ (
    record cfi {
      identified_functions = (name, cfi.fun_id_ctr) ∷ cfi.identified_functions;
      fun_id_ctr = (cfi.fun_id_ctr + 1) % 2 ^ 32;
    },
    cfi.fun_id_ctr,
  )
]

-- `AddIdentifiedFunction`
unfoldable pub add_identified_function : Cfi → Name → ℕ → Option Cfi
add_identified_function cfi name id = elim (lookup name cfi.identified_functions) [
  | some known ↦ none
  | none ↦ some (record cfi {
    identified_functions = (name, id) ∷ cfi.identified_functions;
    fun_id_ctr = if leb cfi.fun_id_ctr id then (id + 1) % 2 ^ 32 else cfi.fun_id_ctr;
  })
]

-- `getIdentifier`
abbrev pub get_identifier : Cfi → Name → Option ℕ
get_identifier cfi name = lookup name cfi.identified_functions

-- A line of the file of function ids: a name, its id and its flags.
pub record FileEntry : Type 0 where
  pub fct_name : Name
  pub id : ℕ
  pub flags : Name

-- The first loop of `IdentifyFunctions`, over the lines of the file.
unfoldable pub read_function_ids : Cfi → List FileEntry → Option Cfi
read_function_ids cfi [] = some cfi
read_function_ids cfi (e ∷ es) = elim (add_identified_function cfi e.fct_name e.id) [
  | none ↦ none
  | some cfi' ↦ read_function_ids cfi' es
]

-- `_FunctionMap[F.getName()] = …`: an entry of the name is overwritten.
abbrev pub has_fct : Name → List CfiFct → Bool
has_fct name [] = false
has_fct name (c ∷ cs) = elim (same_name c.fun.name name) [ true ↦ true | false ↦ has_fct name cs ]

abbrev pub replace_fct : CfiFct → List CfiFct → List CfiFct
replace_fct c [] = []
replace_fct c (x ∷ xs) = elim (same_name x.fun.name c.fun.name) [
  | true ↦ c ∷ xs
  | false ↦ x ∷ replace_fct c xs
]

abbrev pub put_fct : CfiFct → List CfiFct → List CfiFct
put_fct c cs = elim (has_fct c.fun.name cs) [ true ↦ replace_fct c cs | false ↦ c ∷ cs ]

-- The second one, over the functions of the module.
unfoldable pub identify_module : Cfi → List Function → Cfi
identify_module cfi [] = cfi
identify_module cfi (f ∷ fs) = elim (is_ignored_function cfi f.name) [
  | true ↦ identify_module cfi fs
  | false ↦ elim f.is_intrinsic [
    | true ↦ identify_module cfi fs
    | false ↦
        let r = identify_function cfi f.name in
        identify_module
          (record r.0 { function_map = put_fct (record { fun = f; id = r.1 }) r.0.function_map }) fs
  ]
]

-- `IdentifyFunctions`, given the lines of the file, if it is there
unfoldable pub identify_functions : Cfi → List FileEntry → List Function → Option Cfi
identify_functions cfi file fs = elim (read_function_ids cfi file) [
  | none ↦ none
  | some cfi' ↦ some (identify_module cfi' fs)
]
