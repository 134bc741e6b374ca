-- ===== src/Main/Faults.antt =====
-- monitor/src/main.c and monitor/src/monitor_load.c: the errors after which `monitor_data_free`
-- follows pointers that were never set.
use picon.Base.{
  ◌⊎◌, ℕ, suc, ◌≡◌, refl, Bool, false, ◌&&◌, List, [], ◌∷◌, none, some, arith, Bool-cases, inl, inr,
}
use picon.Tables.{ModuleData, MonitorData, at}
use picon.Load.Cursor.{◌>>=◌, read_u32}
use picon.Load.Functions.{allocate_module, load_section_function_id}
use picon.Load.Module.{fresh_module}
use picon.Load.Free.{free_row, free_function, free_functions, free_modules, monitor_data_free}

abbrev pub one_module_of : ModuleData → MonitorData
one_module_of m = record { nb_modules = 1; modules = some (m ∷ []) }

free_function_faults :
    (m : ModuleData) → (at m.functions 0 ≡ none) ⊎ (m.call_graph ≡ none) → free_function m 0 ≡ none
unfolding free_function free_row
free_function_faults m h = ground arith

free_faults :
    (m : ModuleData) (n : ℕ)
    → m.nb_functions ≡ suc n
    → free_function m 0 ≡ none
    → monitor_data_free (one_module_of m) ≡ none
unfolding monitor_data_free free_modules free_functions
free_faults m n c e = ground (arith, c, e)

-- The first allocation that fails leaves an array NULL.
allocate_module_fails :
    (alloc : ℕ → Bool) (n : ℕ)
    → (alloc 0 && alloc 1 && alloc 2) ≡ false
    → ((allocate_module alloc n fresh_module).0 ≡ false)
      × ((allocate_module alloc n fresh_module).1.nb_functions ≡ n)
      × ((at (allocate_module alloc n fresh_module).1.functions 0 ≡ none)
          ⊎ ((allocate_module alloc n fresh_module).1.call_graph ≡ none))
unfolding allocate_module
allocate_module_fails alloc n h = elim (Bool-cases (alloc 0)) [
  | inr a ↦ rw (allocate_module, a) (refl, refl, inr refl)
  | inl a ↦ elim (Bool-cases (alloc 1)) [
    | inr b ↦ rw (allocate_module, a, b) (refl, refl, inl refl)
    | inl b ↦
        let c : alloc 2 ≡ false = ground arith in
        rw (allocate_module, a, b, c) (refl, refl, inl refl)
  ]
]

-- When one of the three arrays of a module cannot be allocated, its function section is refused
-- with the error 2 and keeps the count of functions, and `monitor_data_free` then faults.
pub failed_allocation_faults :
    (alloc : ℕ → Bool) (value rest : List ℕ) (n : ℕ)
    → (alloc 0 && alloc 1 && alloc 2) ≡ false
    → read_u32 value ≡ some (suc n, rest)
    → (m : ModuleData) × (load_section_function_id alloc value fresh_module ≡ some (2, m))
      × (m.nb_functions ≡ suc n)
      × (monitor_data_free (one_module_of m) ≡ none)
unfolding load_section_function_id
failed_allocation_faults alloc value rest n h e =
    let (fails, counted, missing) = allocate_module_fails alloc (suc n) h in
    let m = (allocate_module alloc (suc n) fresh_module).1 in
    (
      m,
      rw (load_section_function_id, e, ◌>>=◌, fails) refl,
      counted,
      free_faults m n counted (free_function_faults m missing),
    )
