-- ===== src/Pass/Annotated.antt =====
-- llvm_pass/CFI/CFI.cpp, `ParseAnnotations`: the functions that are annotated
-- "cfi_ignore_blocks", and what the pass does with them.
use picon.Base.{
  ℕ, ◌≡◌, refl, ◌∙◌, sym, ap, true, false, ◌||◌, List, [], ◌∷◌, Option, none, some, Bool-cases,
  Option-cases, inl, inr, arith,
}
use picon.Load.Relocations.{same_name}
use picon.Pass.{
  Name, Function, CfiFct, Cfi, contains, is_ignored_function, is_ignored_blocks_function,
}
use picon.Pass.Files.{skips_blocks, write_allowed_bb_trans}
use picon.Pass.Postdom.{write_ipdom_to_file}
use picon.Pass.Inject.{InjectedBlock, inject_mcall, inject_blocks, inject_function}
use picon.Pass.Exposed.{contains-insert_name}
use picon.Pass.Patch.{
  Pointer, null, expression, other_pointer, function, cast, Text, null_text, cast_text,
  element_text, constant_text, Element, struct, other_element, Global, Globals, as_function,
  insert_name, annotation_ignore_block, operand_text, as_text, parse_elements, parse_annotations,
}

-- The functions that have the annotation with the text `s`, by what comes after it in the list.
abbrev note : Name → Option Name → List Name → List Name
note n none rest = []
note n (some s) rest = elim (same_name s annotation_ignore_block) [ true ↦ n ∷ rest | false ↦ rest ]

abbrev noted : Name → Text → List Name → List Name
noted n null_text rest = []
noted n t rest = note n (as_text t) rest

-- The functions of a list of annotations that have the one that is looked for, up to the first
-- NULL.
abbrev pub annotated_functions : List (Element (Pointer × Text)) → List Name
annotated_functions [] = []
annotated_functions (other_element ∷ es) = []
annotated_functions (struct (null, t) ∷ es) = []
annotated_functions (struct (p, t) ∷ es) = elim (as_function p) [
  | none ↦ []
  | some name ↦ noted name t (annotated_functions es)
]

module _ (es : List (Element (Pointer × Text))) (n x : Name)
    (rest : (names names' : List Name)
      → parse_elements es names ≡ some names'
      → contains names' x ≡ (contains (annotated_functions es) x || contains names x)) where
  contains-note :
      (s : Option Name) (names names' : List Name)
      → elim s [
        | none ↦ none
        | some a ↦ parse_elements es (elim (same_name a annotation_ignore_block) [
          | true ↦ insert_name n names
          | false ↦ names
        ])
      ]
        ≡ some names'
      → contains names' x ≡ (contains (note n s (annotated_functions es)) x || contains names x)
  contains-note none names names' h = absurd (ground arith)
  contains-note (some a) names names' h = elim (Bool-cases (same_name a annotation_ignore_block)) [
    | inl this ↦
        let later = rest (insert_name n names) names' (
          ap (λ b. parse_elements es (elim b [ true ↦ insert_name n names | false ↦ names ]))
            (sym this)
          ∙ h) in
        let added = contains-insert_name n names x in
        let own : contains names' x
            ≡ (contains (n ∷ annotated_functions es) x || contains names x) =
          elim (Bool-cases (same_name n x)) [
            | inl s ↦ elim (Bool-cases (contains (annotated_functions es) x)) [
              | inl t ↦ ground (arith, later, added)
              | inr t ↦ ground (arith, later, added)
            ]
            | inr s ↦ ground (arith, later, added)
          ] in
        own
        ∙ ap
            (λ b.
              contains
                (elim b [ true ↦ n ∷ annotated_functions es | false ↦ annotated_functions es ]) x
              || contains names x)
            (sym this)
    | inr that ↦
        rest names names' (
          ap (λ b. parse_elements es (elim b [ true ↦ insert_name n names | false ↦ names ]))
            (sym that)
          ∙ h)
        ∙ ap
            (λ b.
              contains
                (elim b [ true ↦ n ∷ annotated_functions es | false ↦ annotated_functions es ]) x
              || contains names x)
            (sym that)
  ]

  -- The element of an annotation whose function is `n`.
  contains-noted :
      (t : Text) (names names' : List Name)
      → parse_elements (struct (function n, t) ∷ es) names ≡ some names'
      → contains names' x ≡ (contains (noted n t (annotated_functions es)) x || contains names x)
  unfolding parse_elements
  contains-noted null_text names names' h =
      let same : names ≡ names' = ground arith in ap (λ l. contains l x) (sym same)
  contains-noted (cast_text s u) names names' h = contains-note (operand_text u) names names' h
  contains-noted (element_text s) names names' h = contains-note s names names' h
  contains-noted (constant_text s) names names' h = absurd (ground arith)

contains-parse_elements :
    (es : List (Element (Pointer × Text))) (x : Name) (names names' : List Name)
    → parse_elements es names ≡ some names'
    → contains names' x ≡ (contains (annotated_functions es) x || contains names x)
unfolding parse_elements
contains-parse_elements [] x names names' h =
    let same : names ≡ names' = ground arith in ap (λ l. contains l x) (sym same)
contains-parse_elements (other_element ∷ es) x names names' h = absurd (ground arith)
contains-parse_elements (struct (null, t) ∷ es) x names names' h =
    let same : names ≡ names' = ground arith in ap (λ l. contains l x) (sym same)
contains-parse_elements (struct (expression, t) ∷ es) x names names' h = absurd (ground arith)
contains-parse_elements (struct (other_pointer, t) ∷ es) x names names' h = absurd (ground arith)
contains-parse_elements (struct (function n, t) ∷ es) x names names' h =
    contains-noted es n x (contains-parse_elements es x) t names names' h
contains-parse_elements (struct (cast (function n), t) ∷ es) x names names' h =
    contains-noted es n x (contains-parse_elements es x) t names names' h
contains-parse_elements (struct (cast null, t) ∷ es) x names names' h = absurd (ground arith)
contains-parse_elements (struct (cast expression, t) ∷ es) x names names' h = absurd (ground arith)
contains-parse_elements (struct (cast other_pointer, t) ∷ es) x names names' h =
    absurd (ground arith)
contains-parse_elements (struct (cast (cast p), t) ∷ es) x names names' h = absurd (ground arith)

-- A function whose blocks are ignored has the code that it has at the level of functions, and no
-- lines in the tables of blocks.
inject_blocks-ignored :
    (cfi : Cfi) (f : Function) (bs : List InjectedBlock)
    → is_ignored_blocks_function cfi f.name ≡ true
    → inject_blocks cfi true f bs ≡ some bs
unfolding inject_blocks
inject_blocks-ignored cfi f bs h = ground arith

inject_function-ignored :
    (cfi : Cfi) (c : CfiFct)
    → is_ignored_blocks_function cfi c.fun.name ≡ true
    → inject_function cfi true c ≡ inject_function cfi false c
unfolding inject_function inject_blocks
inject_function-ignored cfi c h = elim (Option-cases (inject_mcall cfi c.fun.blocks)) [
  | inl n ↦ ground arith
  | inr (bs, q) ↦ ground arith
]

skips_blocks-ignored :
    (cfi : Cfi) (f : Function)
    → is_ignored_blocks_function cfi f.name ≡ true
    → skips_blocks cfi f ≡ true
skips_blocks-ignored cfi f h = elim (Bool-cases (is_ignored_function cfi f.name)) [
  | inl k ↦ ground arith
  | inr k ↦ ground arith
]

module _ (g : Globals) (cfi cfi' : Cfi) (v : Global (Pointer × Text))
    (es : List (Element (Pointer × Text))) (global : g.annotations ≡ some v)
    (operand : v.has_operand ≡ true) (array : v.initializer ≡ some (some es))
    (parsed : parse_annotations g cfi ≡ some cfi') where
  annotated_lem :
      (x : Name)
      → is_ignored_blocks_function cfi' x
        ≡ (contains (annotated_functions es) x || is_ignored_blocks_function cfi x)
  unfolding parse_annotations
  annotated_lem x = elim (Option-cases (parse_elements es cfi.ignored_blocks_functions)) [
    | inl n ↦ absurd (ground arith)
    | inr (names, q) ↦
        let same : names ≡ cfi'.ignored_blocks_functions = ground arith in
        ap (λ l. contains l x) (sym same)
        ∙ contains-parse_elements es x cfi.ignored_blocks_functions names q
  ]

  -- Let a module have a list of annotations, let `ParseAnnotations` return, and let the list
  -- annotate a function with "cfi_ignore_blocks" before its first NULL. Then at the level of
  -- basic blocks the function gets the code that it gets at the level of functions, and neither
  -- the table of jumps nor that of post-dominators has lines of it.
  pub annotated_blocks_ignored :
      (trees : Name → ℕ → ℕ → Option ℕ) (c : CfiFct) (cs : List CfiFct)
      → contains (annotated_functions es) c.fun.name ≡ true
      → (inject_function cfi' true c ≡ inject_function cfi' false c)
        × (write_allowed_bb_trans cfi' (c ∷ cs) ≡ write_allowed_bb_trans cfi' cs)
        × (write_ipdom_to_file trees cfi' (c ∷ cs) ≡ write_ipdom_to_file trees cfi' cs)
  unfolding write_allowed_bb_trans write_ipdom_to_file
  annotated_blocks_ignored trees c cs h =
      let ignored : is_ignored_blocks_function cfi' c.fun.name ≡ true =
        annotated_lem c.fun.name ∙ rw h refl in
      let skipped = skips_blocks-ignored cfi' c.fun ignored in
      (inject_function-ignored cfi' c ignored, ground (arith, skipped), ground (arith, skipped))
