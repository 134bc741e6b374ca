-- ===== src/Pass/Constructors.antt =====
-- llvm_pass/CFI/CFI.cpp, `PatchCtorFunctions` and `writeFunctionIDs`: what becomes of the
-- functions that a module lists as its constructors.
use picon.Base.{
  ◌≡◌, refl, ◌∙◌, sym, ap, Bool, true, false, not, ◌||◌, ◌&&◌, ltb, List, none, some, Bool-cases,
  Option-cases, inl, inr, arith,
}
use picon.Pass.{Name, CfiFct, Cfi, FileEntry, contains, is_ignored_function, is_init_function}
use picon.Pass.Patch.{
  Pointer, Element, Global, Globals, patch_elements, patch_functions, patch_ctor_functions,
}
use picon.Pass.FunctionIds.{id_agrees, find_entry, flag_init, write_function}
use picon.Pass.Exposed.{listed_functions, patch_elements-Exposes}

-- A variable with a list of functions is removed, once they are exposed.
patch_functions-parts :
    (v : Global Pointer) (es : List (Element Pointer)) (st : Globals × List Name)
    (r : Bool × Globals × List Name)
    → v.has_operand ≡ true
    → v.initializer ≡ some (some es)
    → patch_functions (some v) st ≡ some r
    → (r.0 ≡ true) × (patch_elements es st ≡ some (r.1, r.2))
unfolding patch_functions
patch_functions-parts v es st r o i h = elim (Option-cases (patch_elements es st)) [
  | inl n ↦ absurd (ground arith)
  | inr (st', q) ↦ elim (Bool-cases (ltb 0 v.num_uses)) [
    | inl used ↦ absurd (ground arith)
    | inr unused ↦
        let out : (true, st'.0, st'.1) ≡ r = ground arith in
        (sym (ap (λ t. t.0) out), q ∙ ap (λ t. some (t.1, t.2)) out)
  ]
]

write_function-init :
    (cfi : Cfi) (file : Name) (old : List FileEntry) (c : CfiFct) (line : FileEntry)
    → is_ignored_function cfi c.fun.name ≡ false
    → is_init_function cfi c.fun.name ≡ true
    → write_function cfi file old c ≡ some line
    → (line.fct_name ≡ c.fun.name) × (line.id ≡ c.id) × (line.flags ≡ flag_init)
unfolding write_function
write_function-init cfi file old c line k i h =
    elim (Bool-cases (id_agrees (find_entry c.fun.name old) c.id)) [
      | inl ok ↦
          let out : record { fct_name = c.fun.name; id = c.id; flags = flag_init } ≡ line =
            ground arith in
          (sym (ap (λ l. l.fct_name) out), sym (ap (λ l. l.id) out), sym (ap (λ l. l.flags) out))
      | inr bad ↦ absurd (ground arith)
    ]

patch_ctor_functions-parts :
    (g g' : Globals) (cfi cfi' : Cfi) (v : Global Pointer) (es : List (Element Pointer))
    → g.ctors ≡ some v
    → v.has_operand ≡ true
    → v.initializer ≡ some (some es)
    → patch_ctor_functions g cfi ≡ some (g', cfi')
    → (st : Globals × List Name) × (patch_elements es (g, cfi.init_functions) ≡ some st)
      × (st.1 ≡ cfi'.init_functions)
      × (st.0.hidden_functions ≡ g'.hidden_functions)
      × (st.0.local_functions ≡ g'.local_functions)
      × (g'.ctors ≡ none)
unfolding patch_ctor_functions
patch_ctor_functions-parts g g' cfi cfi' v es global operand array h =
    elim (Option-cases (patch_functions g.ctors (g, cfi.init_functions))) [
      | inl n ↦ absurd (ground arith)
      | inr (r, q) ↦
          let (removed, run) =
            patch_functions-parts v es (g, cfi.init_functions) r operand array
              (ap (λ o. patch_functions o (g, cfi.init_functions)) (sym global) ∙ q) in
          let left : Globals × Cfi = (
            record r.1 { ctors = elim r.0 [ true ↦ none | false ↦ r.1.ctors ] },
            record cfi { init_functions = r.2 },
          ) in
          let out : left ≡ (g', cfi') = ground arith in
          (
            (r.1, r.2),
            run,
            ap (λ t. t.1.init_functions) out,
            ap (λ t. t.0.hidden_functions) out,
            ap (λ t. t.0.local_functions) out,
            sym (ap (λ t. t.0.ctors) out) ∙ rw removed refl,
          )
    ]

module _ (g g' : Globals) (cfi cfi' : Cfi) (v : Global Pointer) (es : List (Element Pointer))
    (global : g.ctors ≡ some v) (operand : v.has_operand ≡ true)
    (array : v.initializer ≡ some (some es))
    (patched : patch_ctor_functions g cfi ≡ some (g', cfi')) where
  -- Let a module have a list of constructors, and let `PatchCtorFunctions` return. Then the
  -- variable with the list is gone, and a function is a constructor of the module, and hidden,
  -- when it was or when the list names it before its first NULL; it is local when it was and the
  -- list does not name it.
  pub constructors_exposed :
      (x : Name)
      → (g'.ctors ≡ none)
        × (is_init_function cfi' x ≡ (contains (listed_functions es) x || is_init_function cfi x))
        × (contains g'.hidden_functions x
            ≡ (contains (listed_functions es) x || contains g.hidden_functions x))
        × (contains g'.local_functions x
            ≡ (not (contains (listed_functions es) x) && contains g.local_functions x))
  constructors_exposed x =
      let (st, run, inits, hids, locs, gone) =
        patch_ctor_functions-parts g g' cfi cfi' v es global operand array patched in
      let exposes = patch_elements-Exposes es (g, cfi.init_functions) st x run in
      (
        gone,
        ap (λ names. contains names x) (sym inits) ∙ exposes.inserted_name,
        ap (λ names. contains names x) (sym hids) ∙ exposes.hidden,
        ap (λ names. contains names x) (sym locs) ∙ exposes.exposed,
      )

  -- Let a module have a list of constructors, let `PatchCtorFunctions` return, and let the list
  -- name a function before its first NULL, which is not one to ignore. When a line of the file of
  -- ids is then written for that function, it has its name and its id, and the flags "Init".
  pub constructors_flagged :
      (file : Name) (old : List FileEntry) (c : CfiFct) (line : FileEntry)
      → contains (listed_functions es) c.fun.name ≡ true
      → is_ignored_function cfi' c.fun.name ≡ false
      → write_function cfi' file old c ≡ some line
      → (line.fct_name ≡ c.fun.name) × (line.id ≡ c.id) × (line.flags ≡ flag_init)
  constructors_flagged file old c line l k w =
      let (gone, flagged, hid, loc) = constructors_exposed c.fun.name in
      write_function-init cfi' file old c line k (flagged ∙ rw l refl) w
