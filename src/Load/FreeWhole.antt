-- ===== src/Load/FreeWhole.antt =====
-- monitor/src/monitor_load.c: `monitor_data_free` on tables whose arrays are as long as their
-- counts.
use picon.Base.{
  ℕ, zero, suc, ◌+◌, ◌≤◌, ◌≡◌, refl, ◌∙◌, ap, true, false, ◌==◌, List, [], ◌∷◌, length, set, Option,
  none, some, arith, Bool-cases, inl, inr,
}
use picon.Tables.{put_at, ModuleData, MonitorData, at, Matrix}
use picon.Load.Free.{
  free_row, free_rows, freed_function, free_function, free_functions, free_arrays, free_modules,
  monitor_data_free,
}
use picon.Load.Relocations.{put_module}
use picon.Load.Whole.{
  Spans, AllAt, AllAt-at, IsWholeFunction, IsWholeModule, IsWhole, put_at-Spans, put_at-AllAt,
  put_module-IsWhole,
}

-- What is below the length of an array is there.
lookup_spanned {ℓ} :
    {A : Type ℓ} (p : Option (List A)) (n i : ℕ)
    → Spans n p
    → suc i ≤ n
    → (x : A) × (at p i ≡ some x)
lookup_spanned none n i s h = absurd (omega (arith, s))
lookup_spanned (some []) n i s h = absurd (omega arith)
lookup_spanned (some (x ∷ xs)) n zero s h = (x, refl)
lookup_spanned (some (x ∷ xs)) n (suc i) s h =
    lookup_spanned (some xs) (length xs) i (omega arith) (omega arith)

free_row_lem :
    (p : Matrix) (n i : ℕ)
    → Spans n p
    → suc i ≤ n
    → (p' : Matrix) × (free_row p i ≡ some p') × Spans n p'
unfolding free_row
free_row_lem none n i s h = absurd (omega (arith, s))
free_row_lem (some rows) n i s h =
    let (row, e) = lookup_spanned (some rows) n i s h in
    (some (set rows i none), rw (free_row, e) refl, put_at-Spans n (some rows) i none s)

free_rows_lem :
    (rounds k n : ℕ) (p : Matrix)
    → Spans n p
    → k + rounds ≤ n
    → (p' : Matrix) × (free_rows rounds k p ≡ some p')
unfolding free_rows
free_rows_lem zero k n p s h = (p, refl)
free_rows_lem (suc rounds) k n p s h =
    let (p', e, s') = free_row_lem p n k s (omega arith) in
    let (p'', e') = free_rows_lem rounds (k + 1) n p' s' (omega arith) in
    (p'', rw (free_rows, e) e')

-- The functions from `j` on of a module can be freed.
record IsFreeable (j : ℕ) (m : ModuleData) : Type 0 where
  calls : Spans j m.call_graph
  functions : Spans j m.functions
  whole : AllAt IsWholeFunction m.functions

free_function_lem :
    (m : ModuleData) (j n : ℕ)
    → IsFreeable n m
    → suc j ≤ n
    → (m' : ModuleData) × (free_function m j ≡ some m')
      × IsFreeable n m'
      × (m'.nb_functions ≡ m.nb_functions)
unfolding free_function
free_function_lem m j n w h =
    let (f, e) = lookup_spanned m.functions n j w.functions h in
    let (calls, e₁, s₁) = free_row_lem m.call_graph n j w.calls h in
    let fw = AllAt-at IsWholeFunction m.functions j f w.whole e in
    let (jumps, e₂) =
      free_rows_lem f.nb_blocks 0 f.nb_blocks f.control_flow_graph fw.jumps_span (omega arith) in
    (
      record m { call_graph = calls; functions = put_at m.functions j (freed_function f) },
      rw (free_function, e, e₁, e₂) refl,
      record {
        calls = s₁;
        functions = put_at-Spans n m.functions j (freed_function f) w.functions;
        whole = put_at-AllAt IsWholeFunction m.functions j (freed_function f) (omega arith) w.whole;
      },
      refl,
    )

free_functions_lem :
    (rounds j n : ℕ) (m : ModuleData)
    → IsFreeable n m
    → j + rounds ≤ n
    → (m' : ModuleData) × (free_functions rounds j m ≡ some m') × (m'.nb_functions ≡ m.nb_functions)
unfolding free_functions
free_functions_lem zero j n m w h = (m, refl, refl)
free_functions_lem (suc rounds) j n m w h =
    let (m', e, w', c) = free_function_lem m j n w (omega arith) in
    let (m'', e', c') = free_functions_lem rounds (j + 1) n m' w' (omega arith) in
    (m'', rw (free_functions, e) e', c' ∙ c)

free_functions-none : (n : ℕ) (m : ModuleData) → n ≡ 0 → free_functions n 0 m ≡ some m
unfolding free_functions
free_functions-none zero m e = refl
free_functions-none (suc n) m e = absurd (omega (arith, e))

free_arrays-none :
    (m : ModuleData)
    → (m.nb_functions == 0) ≡ true
    → IsWholeModule m
    → IsWholeModule (free_arrays m)
free_arrays-none m z w = rw (free_arrays, z) w

free_arrays-IsWholeModule :
    (m : ModuleData) → (m.nb_functions == 0) ≡ false → IsWholeModule (free_arrays m)
free_arrays-IsWholeModule m z =
    rw (free_arrays, z)
      (record {
        calls_span = refl;
        relocations_span = refl;
        functions_span = refl;
        functions_whole = tt;
      })

-- A module is freed, and what is left of it is whole.
free_module_lem :
    (m : ModuleData)
    → IsWholeModule m
    → (m' : ModuleData) × (free_functions m.nb_functions 0 m ≡ some m')
      × IsWholeModule (free_arrays m')
free_module_lem m w = elim (Bool-cases (m.nb_functions == 0)) [
  | inl z ↦ (m, free_functions-none m.nb_functions m (ground arith), free_arrays-none m z w)
  | inr z ↦
      let (m', e, c) =
        free_functions_lem m.nb_functions 0 m.nb_functions m
          (record { calls = w.calls_span; functions = w.functions_span; whole = w.functions_whole })
          (omega arith) in
      (m', e, free_arrays-IsWholeModule m' (ap (λ n. n == 0) c ∙ z))
]

free_modules_lem :
    (rounds i : ℕ) (mon : MonitorData)
    → IsWhole mon
    → i + rounds ≤ mon.nb_modules
    → (mon' : MonitorData) × (free_modules rounds i mon ≡ some mon')
      × (mon'.nb_modules ≡ mon.nb_modules)
unfolding free_modules
free_modules_lem zero i mon w h = (mon, refl, refl)
free_modules_lem (suc rounds) i mon w h =
    let (m, e) = lookup_spanned mon.modules mon.nb_modules i w.modules_span (omega arith) in
    let (m', e', w') =
      free_module_lem m (AllAt-at IsWholeModule mon.modules i m w.modules_whole e) in
    let next = record mon { modules = put_module mon.modules i (free_arrays m') } in
    let (mon', e'', c) =
      free_modules_lem rounds (i + 1) next (put_module-IsWhole mon i (free_arrays m') w' w)
        (omega arith) in
    (mon', rw (free_modules, e, e') e'', c)

-- Tables whose arrays are as long as their counts say are freed without a fault, and no module is
-- left.
pub monitor_data_free_lem :
    (mon : MonitorData)
    → IsWhole mon
    → (mon' : MonitorData) × (monitor_data_free mon ≡ some mon') × (mon'.nb_modules ≡ 0)
unfolding monitor_data_free
monitor_data_free_lem mon w =
    let (mon', e, c) = free_modules_lem mon.nb_modules 0 mon w (omega arith) in
    elim (Bool-cases (mon'.nb_modules == 0)) [
      | inl z ↦ (mon', rw (monitor_data_free, e, z) refl, ground arith)
      | inr z ↦
          (record mon' { modules = none; nb_modules = 0 }, rw (monitor_data_free, e, z) refl, refl)
    ]
