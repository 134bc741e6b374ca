-- ===== src/Load/Resolved.antt =====
-- monitor/src/monitor_load.c: which functions `compute_relocations_of_module` relocates to.
use picon.Base.{
  ℕ, zero, suc, ◌+◌, ◌≤◌, ◌<◌, ◌≡◌, ◌≢◌, refl, ◌∙◌, sym, ap, Bool, true, false, ◌==◌, leb, List, [],
  ◌∷◌, length, Option, none, some, set, arith, Bool-cases, Option-cases, inl, inr,
  get_elem?-set_self, get_elem?-set_ne,
}
use picon.Ids.{module_function}
use picon.Tables.{FunctionData, ModuleData, MonitorData, at, is_external}
use picon.Load.Relocations.{
  search_modules, set_relocation, relocate, put_module, compute_relocations_of_module,
}
use picon.Load.Search.{Resolves, search_modules_sound}

set_relocation-at :
    (relocs : Option (List ℕ)) (j r : ℕ) (relocs' : Option (List ℕ))
    → set_relocation relocs j r ≡ some relocs'
    → (at relocs' j ≡ some r) × ((i : ℕ) → i < j → at relocs' i ≡ at relocs i)
set_relocation-at none j r relocs' h = absurd (ground arith)
set_relocation-at (some rs) j r relocs' h = elim (Bool-cases (leb (length rs) j)) [
  | inl e ↦ absurd (ground arith)
  | inr e ↦
      let same : some (set rs j r) ≡ relocs' = ground arith in
      rw (sym same) (
        get_elem?-set_self rs j r (ground arith),
        λ i b. get_elem?-set_ne rs r (λ q. omega (arith, b, q)),
      )
]

module _ (mon : MonitorData) (mi : ModuleData) (mid : ℕ) (fatal : Bool) where
  -- What one round of the loop does, where the loop ends with the code `c` and `relocs'`.
  pub data Next (rounds j : ℕ) (relocs relocs' : Option (List ℕ)) (c : ℕ) : Type 0 where
    own :
        (f : FunctionData)
        → at mi.functions j ≡ some f
        → is_external f ≡ false
        → relocate mon mi mid fatal rounds (j + 1) relocs ≡ some (c, relocs')
        → Next rounds j relocs relocs' c
    found :
        (f : FunctionData) (k l : ℕ) (rs : Option (List ℕ))
        → at mi.functions j ≡ some f
        → search_modules mon mid f.name mon.nb_modules ≡ some (some (k, l))
        → set_relocation relocs j (module_function k l) ≡ some rs
        → relocate mon mi mid fatal rounds (j + 1) rs ≡ some (c, relocs')
        → Next rounds j relocs relocs' c
    missing :
        fatal ≡ false
        → relocate mon mi mid fatal rounds (j + 1) relocs ≡ some (c, relocs')
        → Next rounds j relocs relocs' c
    stops : c ≡ 1 → relocs' ≡ relocs → Next rounds j relocs relocs' c

  pub relocate-Next :
      (rounds j : ℕ) (relocs relocs' : Option (List ℕ)) (c : ℕ)
      → relocate mon mi mid fatal (suc rounds) j relocs ≡ some (c, relocs')
      → Next rounds j relocs relocs' c
  unfolding relocate
  relocate-Next rounds j relocs relocs' c h = elim (Option-cases (at mi.functions j)) [
    | inl e ↦ absurd (ground arith)
    | inr (f, e) ↦ elim (Bool-cases (is_external f)) [
      | inr x ↦ own f e x (ground arith)
      | inl x ↦ elim (Option-cases (search_modules mon mid f.name mon.nb_modules)) [
        | inl s ↦ absurd (ground arith)
        | inr (some (k, l), s) ↦
            elim (Option-cases (set_relocation relocs j (module_function k l))) [
              | inl t ↦ absurd (ground arith)
              | inr (rs, t) ↦ found f k l rs e s t (ground arith)
            ]
        | inr (none, s) ↦ elim (Bool-cases fatal) [
          | inl t ↦ stops (ground arith) (ground arith)
          | inr t ↦ missing t (ground arith)
        ]
      ]
    ]
  ]

  -- The loop leaves what is before `j`.
  relocate-before :
      (rounds j : ℕ) (relocs relocs' : Option (List ℕ)) (c : ℕ)
      → relocate mon mi mid fatal rounds j relocs ≡ some (c, relocs')
      → (i : ℕ) → i < j
      → at relocs' i ≡ at relocs i
  unfolding relocate
  relocate-before zero j relocs relocs' c h i b = ground arith
  relocate-before (suc rounds) j relocs relocs' c h i b =
      elim (relocate-Next rounds j relocs relocs' c h) [
        | own f e x next ↦ relocate-before rounds (j + 1) relocs relocs' c next i (omega arith)
        | found f k l rs e s t next ↦
            relocate-before rounds (j + 1) rs relocs' c next i (omega arith)
            ∙ (set_relocation-at relocs j (module_function k l) rs t).1 i b
        | missing q next ↦ relocate-before rounds (j + 1) relocs relocs' c next i (omega arith)
        | stops q same ↦ ap (λ p. at p i) same
      ]

  same_function :
      (i j : ℕ) (f g : FunctionData)
      → at mi.functions i ≡ some f
      → at mi.functions j ≡ some g
      → j ≡ i
      → f ≡ g
  same_function i j f g fi gj q = ground (arith, ap (λ p. at mi.functions p) q)

  relocate_sound :
      (rounds j : ℕ) (relocs relocs' : Option (List ℕ))
      → fatal ≡ true
      → relocate mon mi mid fatal rounds j relocs ≡ some (0, relocs')
      → (i : ℕ) (f : FunctionData) (a : List ℕ) → j ≤ i
      → i < j + rounds
      → at mi.functions i ≡ some f
      → is_external f ≡ true
      → f.name ≡ some a
      → (k l : ℕ) × (at relocs' i ≡ some (module_function k l))
        × (k < mon.nb_modules)
        × Resolves mon mid a k l
  relocate_sound zero j relocs relocs' strict h i f a ji ir fi x n = absurd (omega arith)
  relocate_sound (suc rounds) j relocs relocs' strict h i f a ji ir fi x n =
      let later : (rs : Option (List ℕ))
          → relocate mon mi mid fatal rounds (j + 1) rs ≡ some (0, relocs')
          → j ≢ i
          → (k l : ℕ) × (at relocs' i ≡ some (module_function k l))
            × (k < mon.nb_modules)
            × Resolves mon mid a k l =
        λ rs q ne.
          relocate_sound rounds (j + 1) rs relocs' strict q i f a (omega (arith, ne)) (omega arith)
            fi x n in
      elim (relocate-Next rounds j relocs relocs' 0 h) [
        | own g e y next ↦
            later relocs next (λ q. let fg = same_function i j f g fi e q in ground arith)
        | found g k l rs e s t next ↦ elim (Bool-cases (j == i)) [
          | inr apart ↦ later rs next (λ q. ground arith)
          | inl here ↦
              let at_i : j ≡ i = ground arith in
              let fg = same_function i j f g fi e at_i in
              let named : some a ≡ g.name = sym n ∙ ap (λ d. d.name) fg in
              let (below, resolves) =
                search_modules_sound mon mid a mon.nb_modules k l
                  (ap (λ p. search_modules mon mid p mon.nb_modules) named ∙ s) in
              (
                k,
                l,
                ap (λ p. at relocs' p) (sym at_i)
                    ∙ relocate-before rounds (j + 1) rs relocs' 0 next j (omega arith)
                    ∙ (set_relocation-at relocs j (module_function k l) rs t).0,
                below,
                resolves,
              )
        ]
        | missing q next ↦ absurd (ground arith)
        | stops q same ↦ absurd (ground arith)
      ]

at-put_module :
    (ms : Option (List ModuleData)) (mid : ℕ) (old new : ModuleData)
    → at ms mid ≡ some old
    → at (put_module ms mid new) mid ≡ some new
at-put_module none mid old new h = absurd (ground arith)
at-put_module (some []) mid old new h = absurd (ground arith)
at-put_module (some (m ∷ ms)) zero old new h = refl
at-put_module (some (m ∷ ms)) (suc mid) old new h = at-put_module (some ms) mid old new h

-- When the relocations of a module are computed strictly with the result 0, each external
-- function of the module that has a name is relocated to a function of another module, which is
-- that module's own and has the same name; the table of functions stays as it is.
pub relocations_resolved :
    (mon mon' : MonitorData) (mid : ℕ) (mi : ModuleData)
    → at mon.modules mid ≡ some mi
    → compute_relocations_of_module mon mid true ≡ some (0, mon')
    → (i : ℕ) (f : FunctionData) (a : List ℕ) → i < mi.nb_functions
    → at mi.functions i ≡ some f
    → is_external f ≡ true
    → f.name ≡ some a
    → (mi' : ModuleData) × (k : ℕ) × (l : ℕ) × (at mon'.modules mid ≡ some mi')
      × (mi'.functions ≡ mi.functions)
      × (at mi'.relocations i ≡ some (module_function k l))
      × (k < mon.nb_modules)
      × Resolves mon mid a k l
unfolding compute_relocations_of_module
relocations_resolved mon mon' mid mi e h i f a below fi x n =
    elim (Option-cases (relocate mon mi mid true mi.nb_functions 0 mi.relocations)) [
      | inl r ↦ absurd (ground arith)
      | inr ((c, relocs), r) ↦
          let success : c ≡ 0 = ground arith in
          let mi' = record mi { relocations = relocs } in
          let stored : put_module mon.modules mid mi' ≡ mon'.modules = ground arith in
          let (k, l, relocated, in_range, resolves) =
            relocate_sound mon mi mid true mi.nb_functions 0 mi.relocations relocs refl
              (r ∙ ap (λ p. some (p, relocs)) success) i f a (omega arith) (omega arith) fi x n in
          (
            mi',
            k,
            l,
            ap (λ p. at p mid) (sym stored) ∙ at-put_module mon.modules mid mi mi' e,
            refl,
            relocated,
            in_range,
            resolves,
          )
    ]
