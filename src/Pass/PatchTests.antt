-- ===== src/Pass/PatchTests.antt =====
-- llvm_pass/CFI/CFI.cpp, `ParseAnnotations`, on a module whose function "run" is annotated.
use picon.Base.{ℕ, ◌≡◌, refl, true, false, List, [], ◌∷◌, Option, none, some}
use picon.Pass.{Name, other, CfiFct, Cfi}
use picon.Pass.Files.{write_allowed_bb_trans}
use picon.Pass.Inject.{inject_function}
use picon.Pass.Postdom.{write_ipdom_to_file}
use picon.Pass.Patch.{
  Pointer, null, function, cast, Text, null_text, cast_text, element_text, Element, struct, Global,
  Globals, annotation_ignore_block, parse_elements, parse_annotations,
}
use picon.Pass.Compile.{new_cfi}
use picon.Pass.Annotated.{annotated_blocks_ignored}

abbrev run : Name
run = 114 ∷ []

abbrev log : Name
log = 108 ∷ []

-- "log" has another annotation.
abbrev elements : List (Element (Pointer × Text))
elements =
    struct (cast (function log), cast_text none (element_text (some log)))
    ∷ struct (cast (function run), cast_text none (element_text (some annotation_ignore_block)))
    ∷ struct (null, null_text)
    ∷ []

abbrev annotations : Global (Pointer × Text)
annotations = record { has_operand = true; initializer = some (some elements); num_uses = 0 }

abbrev globals : Globals
globals = record {
  ctors = none;
  dtors = none;
  annotations = some annotations;
  local_functions = [];
  hidden_functions = [];
}

abbrev annotated : Cfi
annotated = record (new_cfi []) { ignored_blocks_functions = run ∷ [] }

parsed : parse_annotations globals (new_cfi []) ≡ some annotated
unfolding parse_annotations parse_elements
parsed = refl

abbrev run_fct : CfiFct
run_fct = record {
  fun = record {
    name = run;
    is_intrinsic = false;
    blocks =
        record { phis = []; body = other ∷ []; successors = 1 ∷ [] }
        ∷ record { phis = []; body = other ∷ []; successors = [] }
        ∷ [];
  };
  id = 0;
}

-- No two blocks have a post-dominator.
abbrev trees : Name → ℕ → ℕ → Option ℕ
trees name a b = none

annotated_blocks_ignored_example :
    (inject_function annotated true run_fct ≡ inject_function annotated false run_fct)
    × (write_allowed_bb_trans annotated (run_fct ∷ []) ≡ write_allowed_bb_trans annotated [])
    × (write_ipdom_to_file trees annotated (run_fct ∷ []) ≡ write_ipdom_to_file trees annotated [])
annotated_blocks_ignored_example =
    annotated_blocks_ignored globals (new_cfi []) annotated annotations elements refl refl refl
      parsed trees run_fct [] refl
