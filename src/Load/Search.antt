-- ===== src/Load/Search.antt =====
-- monitor/src/monitor_load.c: what the two inner loops of `compute_relocations_of_module` find.
use picon.Base.{
  ℕ, zero, suc, ◌+◌, ◌<◌, ◌≡◌, ◌≢◌, refl, sym, true, false, ◌==◌, List, [], ◌∷◌, none, some, arith,
  Bool-cases, Option-cases, inl, inr,
}
use picon.Tables.{FunctionData, ModuleData, MonitorData, at, is_external}
use picon.Load.Relocations.{same_name, search_functions, search_modules}

-- The function `l` of a module is its own and has the name.
abbrev pub Defines : ModuleData → List ℕ → ℕ → Type 0
Defines mk name l =
    (f : FunctionData) × (at mk.functions l ≡ some f)
    × (is_external f ≡ false)
    × (f.name ≡ some name)

pub same_name_sound : (a b : List ℕ) → same_name a b ≡ true → a ≡ b
same_name_sound [] [] h = refl
same_name_sound [] (d ∷ b) h = absurd (ground arith)
same_name_sound (c ∷ a) [] h = absurd (ground arith)
same_name_sound (c ∷ a) (d ∷ b) h = grind (arith, same_name_sound a b)

search_functions_sound :
    (a : List ℕ) (mk : ModuleData) (rounds l i : ℕ)
    → search_functions (some a) mk rounds l ≡ some (some i)
    → (i < l + rounds) × Defines mk a i
unfolding search_functions
search_functions_sound a mk zero l i h = absurd (ground arith)
search_functions_sound a mk (suc rounds) l i h =
    let later = search_functions_sound a mk rounds (l + 1) i in
    elim (Option-cases (at mk.functions l)) [
      | inl e ↦ absurd (ground arith)
      | inr (f, e) ↦ elim (Bool-cases (is_external f)) [
        | inl x ↦
            let next : search_functions (some a) mk rounds (l + 1) ≡ some (some i) = ground arith in
            let (below, found) = later next in (omega (arith, below), found)
        | inr x ↦ elim (Option-cases f.name) [
          | inl n ↦ absurd (ground arith)
          | inr (b, n) ↦ elim (Bool-cases (same_name a b)) [
            | inl same ↦
                let here : l ≡ i = ground arith in
                let ab = same_name_sound a b same in
                (omega (arith, here), (f, rw (sym here) e, x, rw ab n))
            | inr other ↦
                let next : search_functions (some a) mk rounds (l + 1) ≡ some (some i) =
                  ground arith in
                let (below, found) = later next in (omega (arith, below), found)
          ]
        ]
      ]
    ]

-- A module other than `mid` defines the name.
abbrev pub Resolves : MonitorData → ℕ → List ℕ → ℕ → ℕ → Type 0
Resolves mon mid name k l =
    (mid ≢ k)
    × ((mk : ModuleData) × (at mon.modules k ≡ some mk) × (l < mk.nb_functions) × Defines mk name l)

pub search_modules_sound :
    (mon : MonitorData) (mid : ℕ) (a : List ℕ) (n k l : ℕ)
    → search_modules mon mid (some a) n ≡ some (some (k, l))
    → (k < n) × Resolves mon mid a k l
unfolding search_modules
search_modules_sound mon mid a zero k l h = absurd (ground arith)
search_modules_sound mon mid a (suc n) k l h =
    let lower = search_modules_sound mon mid a n k l in
    elim (Bool-cases (mid == n)) [
      | inl same ↦
          let next : search_modules mon mid (some a) n ≡ some (some (k, l)) = ground arith in
          let (below, found) = lower next in (omega (arith, below), found)
      | inr apart ↦ elim (Option-cases (at mon.modules n)) [
        | inl e ↦ absurd (ground arith)
        | inr (mk, e) ↦ elim (Option-cases (search_functions (some a) mk mk.nb_functions 0)) [
          | inl x ↦ absurd (ground arith)
          | inr (none, x) ↦
              let next : search_modules mon mid (some a) n ≡ some (some (k, l)) = ground arith in
              let (below, found) = lower next in (omega (arith, below), found)
          | inr (some i, x) ↦
              let at_k : n ≡ k = ground arith in
              let at_l : i ≡ l = ground arith in
              let (below, found) = search_functions_sound a mk mk.nb_functions 0 i x in
              (
                omega (arith, at_k),
                (
                  (λ q. ground arith),
                  (mk, rw (sym at_k) e, omega (arith, below, at_l), rw (sym at_l) found),
                ),
              )
        ]
      ]
    ]
