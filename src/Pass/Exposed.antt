-- ===== src/Pass/Exposed.antt =====
-- llvm_pass/CFI/CFI.cpp, `PatchCtorFunctions` and `PatchDtorFunctions`: what the loop over a list
-- of functions does to the sets of names.
use picon.Base.{
  ◌≡◌, refl, ◌∙◌, sym, ap, not, ◌||◌, ◌&&◌, List, [], ◌∷◌, none, some, Bool-cases, inl, inr, arith,
}
use picon.Load.Relocations.{same_name}
use mathlib.Core.Path.{subst}
use picon.Pass.Numbered.{same_name_refl}
use picon.Load.Search.{same_name_sound}
use picon.Pass.{Name, contains}
use picon.Pass.Patch.{
  Pointer, null, expression, other_pointer, function, cast, Element, struct, other_element, Globals,
  as_function, insert_name, without, expose, patch_elements,
}

-- The functions that a list of elements names, up to the first NULL.
abbrev pub listed_functions : List (Element Pointer) → List Name
listed_functions [] = []
listed_functions (other_element ∷ es) = []
listed_functions (struct null ∷ es) = []
listed_functions (struct p ∷ es) = elim (as_function p) [
  | none ↦ []
  | some name ↦ name ∷ listed_functions es
]

pub contains-insert_name :
    (n : Name) (names : List Name) (x : Name)
    → contains (insert_name n names) x ≡ (same_name n x || contains names x)
contains-insert_name n names x = elim (Bool-cases (contains names n)) [
  | inl old ↦ elim (Bool-cases (same_name n x)) [
    | inl same ↦ let here = ap (contains names) (same_name_sound n x same) in ground arith
    | inr other ↦ ground arith
  ]
  | inr new ↦ elim (Bool-cases (same_name n x)) [ inl s ↦ ground arith | inr s ↦ ground arith ]
]

contains-without :
    (n : Name) (names : List Name) (x : Name)
    → contains (without n names) x ≡ (not (same_name n x) && contains names x)
contains-without n [] x = elim (Bool-cases (same_name n x)) [
  | inl s ↦ ground arith
  | inr s ↦ ground arith
]
contains-without n (m ∷ names) x = elim (Bool-cases (same_name m n)) [
  | inl same ↦
      let q : without n (m ∷ names) ≡ without n names = ground arith in
      let one = ap (λ a. same_name a x) (same_name_sound m n same) in
      rw q (elim (Bool-cases (same_name n x)) [
        | inl s ↦ ground (arith, contains-without n names x)
        | inr s ↦ ground (arith, contains-without n names x, one)
      ])
  | inr apart ↦
      let q : without n (m ∷ names) ≡ m ∷ without n names = ground arith in
      rw q (elim (Bool-cases (same_name m x)) [
        | inl s ↦ elim (Bool-cases (same_name n x)) [
          | inl t ↦
              let one = same_name_sound m x s in
              let two = same_name_sound n x t in
              let again = ap (λ a. same_name a n) (one ∙ sym two) in
              absurd (ground (arith, again, same_name_refl n))
          | inr t ↦ ground arith
        ]
        | inr s ↦ ground (arith, contains-without n names x)
      ])
]

contains-expose :
    (n : Name) (g : Globals) (x : Name)
    → (contains (expose n g).hidden_functions x ≡ (same_name n x || contains g.hidden_functions x))
      × (contains (expose n g).local_functions x
          ≡ (not (same_name n x) && contains g.local_functions x))
unfolding expose
contains-expose n g x = (
  contains-insert_name n g.hidden_functions x,
  elim (Bool-cases (contains g.local_functions n)) [
    | inl old ↦ ground (arith, contains-without n g.local_functions x)
    | inr new ↦ elim (Bool-cases (same_name n x)) [
      | inl s ↦ let one = ap (contains g.local_functions) (same_name_sound n x s) in ground arith
      | inr s ↦ ground arith
    ]
  ],
)

-- What the loop does to the three sets, for one name.
pub record Exposes (es : List (Element Pointer)) (st st' : Globals × List Name) (x : Name)
    : Type 0 where
  pub inserted_name : contains st'.1 x ≡ (contains (listed_functions es) x || contains st.1 x)
  pub hidden :
      contains st'.0.hidden_functions x
      ≡ (contains (listed_functions es) x || contains st.0.hidden_functions x)
  pub exposed :
      contains st'.0.local_functions x
      ≡ (not (contains (listed_functions es) x) && contains st.0.local_functions x)

Exposes-step :
    (n : Name) (es : List (Element Pointer)) (p : Pointer) (st st' : Globals × List Name) (x : Name)
    → listed_functions (struct p ∷ es) ≡ n ∷ listed_functions es
    → Exposes es (expose n st.0, insert_name n st.1) st' x
    → Exposes (struct p ∷ es) st st' x
Exposes-step n es p st st' x q h =
    let e : contains (listed_functions (struct p ∷ es)) x
        ≡ (same_name n x || contains (listed_functions es) x) =
      rw q (elim (Bool-cases (same_name n x)) [ inl s ↦ ground arith | inr s ↦ ground arith ]) in
    let (hid, loc) = contains-expose n st.0 x in
    let ins = contains-insert_name n st.1 x in
    let a = h.inserted_name in
    let b = h.hidden in
    let c = h.exposed in
    elim (Bool-cases (same_name n x)) [
      | inl s ↦ elim (Bool-cases (contains (listed_functions es) x)) [
        | inl l ↦ record {
          inserted_name = ground (arith, a, e, ins);
          hidden = ground (arith, b, e, hid);
          exposed = ground (arith, c, e, loc);
        }
        | inr l ↦ record {
          inserted_name = ground (arith, a, e, ins);
          hidden = ground (arith, b, e, hid);
          exposed = ground (arith, c, e, loc);
        }
      ]
      | inr s ↦ record {
        inserted_name = ground (arith, a, e, ins);
        hidden = ground (arith, b, e, hid);
        exposed = ground (arith, c, e, loc);
      }
    ]

pub patch_elements-Exposes :
    (es : List (Element Pointer)) (st st' : Globals × List Name) (x : Name)
    → patch_elements es st ≡ some st'
    → Exposes es st st' x
unfolding patch_elements
patch_elements-Exposes [] st st' x h =
    let same : st ≡ st' = ground arith in
    subst (λ u. Exposes [] st u x) same
      (record { inserted_name = refl; hidden = refl; exposed = refl })
patch_elements-Exposes (other_element ∷ es) st st' x h = absurd (ground arith)
patch_elements-Exposes (struct null ∷ es) st st' x h =
    let same : st ≡ st' = ground arith in
    subst (λ u. Exposes (struct null ∷ es) st u x) same
      (record { inserted_name = refl; hidden = refl; exposed = refl })
patch_elements-Exposes (struct expression ∷ es) st st' x h = absurd (ground arith)
patch_elements-Exposes (struct other_pointer ∷ es) st st' x h = absurd (ground arith)
patch_elements-Exposes (struct (function n) ∷ es) st st' x h =
    Exposes-step n es (function n) st st' x refl
      (patch_elements-Exposes es (expose n st.0, insert_name n st.1) st' x h)
patch_elements-Exposes (struct (cast (function n)) ∷ es) st st' x h =
    Exposes-step n es (cast (function n)) st st' x refl
      (patch_elements-Exposes es (expose n st.0, insert_name n st.1) st' x h)
patch_elements-Exposes (struct (cast null) ∷ es) st st' x h = absurd (ground arith)
patch_elements-Exposes (struct (cast expression) ∷ es) st st' x h = absurd (ground arith)
patch_elements-Exposes (struct (cast other_pointer) ∷ es) st st' x h = absurd (ground arith)
patch_elements-Exposes (struct (cast (cast p)) ∷ es) st st' x h = absurd (ground arith)
