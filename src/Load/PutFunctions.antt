-- ===== src/Load/PutFunctions.antt =====
-- The functions of a section (`msg_fct_t` of include/picon/shared.h), and the table after they are
-- put in one by one by `set_function`.
use picon.Base.{
  ℕ, zero, suc, ◌+◌, ◌^◌, ◌≤◌, ◌<◌, ◌≡◌, refl, ◌∙◌, ap, Bool, true, false, ◌==◌, if◌then◌else◌,
  List, [], ◌∷◌, ◌++◌, Option, none, some, length, get_elem?, set, arith,
}
use picon.Tables.{FunctionData, ModuleData, at, fct_init, fct_fini}
use picon.Load.Cursor.{u32_bytes, IsName}
use picon.Load.Functions.{zero_function, set_function}

-- `msg_fct_t`
pub record Function : Type 0 where
  pub f_id : ℕ
  pub f_flags : ℕ
  pub f_name : List ℕ

abbrev pub functions_bytes : List Function → List ℕ → List ℕ
functions_bytes [] rest = rest
functions_bytes (f ∷ fs) rest =
    u32_bytes f.f_id ++ (u32_bytes f.f_flags ++ (f.f_name ++ 0 ∷ functions_bytes fs rest))

-- The ids are below the count `n`, and the fields fit.
abbrev pub AreFunctions : ℕ → List Function → Type 0
AreFunctions n [] = Unit {0}
AreFunctions n (f ∷ fs) = (f.f_id < n) × (f.f_flags < 2 ^ 32) × IsName f.f_name × AreFunctions n fs

-- What the table is to hold for a function: nothing of its blocks yet.
abbrev pub data_of : Function → FunctionData
data_of f = record zero_function { name = some f.f_name; flags = f.f_flags }

-- The last function with an id.
abbrev pub find_last : List Function → ℕ → Option Function
find_last [] i = none
find_last (f ∷ fs) i = elim (find_last fs i) [
  | some later ↦ some later
  | none ↦ if f.f_id == i then some f else none
]

abbrev pub data_or : FunctionData → Option Function → FunctionData
data_or d none = d
data_or d (some f) = data_of f

-- How many functions have a flag.
abbrev pub count_flag : ℕ → List Function → ℕ
count_flag flag [] = 0
count_flag flag (f ∷ fs) =
    if f.f_flags == flag then suc (count_flag flag fs) else count_flag flag fs

unfoldable pub put_functions : ModuleData → List Function → ModuleData
put_functions m [] = m
put_functions m (f ∷ fs) = put_functions (set_function m f.f_id (data_of f)) fs

pub count_flag-length : (flag : ℕ) (fs : List Function) → count_flag flag fs ≤ length fs
count_flag-length flag [] = omega arith
count_flag-length flag (f ∷ fs) = ground (arith, count_flag-length flag fs)

-- One function is counted, without a wrap.
count_inits_step :
    (m : ModuleData) (f : Function) (fs : List Function)
    → m.nb_entrypoint_inits + count_flag fct_init (f ∷ fs) < 2 ^ 32
    → (set_function m f.f_id (data_of f)).nb_entrypoint_inits + count_flag fct_init fs
      ≡ m.nb_entrypoint_inits + count_flag fct_init (f ∷ fs)
unfolding set_function
count_inits_step m f fs h = ground arith

count_finis_step :
    (m : ModuleData) (f : Function) (fs : List Function)
    → m.nb_entrypoint_finis + count_flag fct_fini (f ∷ fs) < 2 ^ 32
    → (set_function m f.f_id (data_of f)).nb_entrypoint_finis + count_flag fct_fini fs
      ≡ m.nb_entrypoint_finis + count_flag fct_fini (f ∷ fs)
unfolding set_function
count_finis_step m f fs h = ground arith

-- The fields of a module after some functions are put in.
pub put_functions_inits :
    (m : ModuleData) (fs : List Function)
    → m.nb_entrypoint_inits + count_flag fct_init fs < 2 ^ 32
    → (put_functions m fs).nb_entrypoint_inits ≡ m.nb_entrypoint_inits + count_flag fct_init fs
unfolding put_functions
put_functions_inits m [] h = omega arith
put_functions_inits m (f ∷ fs) h =
    let step = count_inits_step m f fs h in
    put_functions_inits (set_function m f.f_id (data_of f)) fs (rw step h) ∙ step

pub put_functions_finis :
    (m : ModuleData) (fs : List Function)
    → m.nb_entrypoint_finis + count_flag fct_fini fs < 2 ^ 32
    → (put_functions m fs).nb_entrypoint_finis ≡ m.nb_entrypoint_finis + count_flag fct_fini fs
unfolding put_functions
put_functions_finis m [] h = omega arith
put_functions_finis m (f ∷ fs) h =
    let step = count_finis_step m f fs h in
    put_functions_finis (set_function m f.f_id (data_of f)) fs (rw step h) ∙ step

pub put_functions_counts :
    (m : ModuleData) (fs : List Function)
    → ((put_functions m fs).nb_functions ≡ m.nb_functions)
      × ((put_functions m fs).call_graph ≡ m.call_graph)
      × ((put_functions m fs).relocations ≡ m.relocations)
unfolding put_functions set_function
put_functions_counts m [] = (refl, refl, refl)
put_functions_counts m (f ∷ fs) = put_functions_counts (set_function m f.f_id (data_of f)) fs

set_lookup :
    (table : List FunctionData) (k i : ℕ) (new d : FunctionData)
    → get_elem? table i ≡ some d
    → get_elem? (set table k new) i ≡ some (if k == i then new else d)
set_lookup [] k i new d h = absurd (ground arith)
set_lookup (x ∷ table) zero zero new d h = refl
set_lookup (x ∷ table) zero (suc i) new d h = h ∙ ground arith
set_lookup (x ∷ table) (suc k) zero new d h = h ∙ ground arith
set_lookup (x ∷ table) (suc k) (suc i) new d h = set_lookup table k i new d h ∙ ground arith

data_or_later :
    (d : FunctionData) (f : Function) (same : Bool) (later : Option Function)
    → data_or (if same then data_of f else d) later
      ≡ data_or d (elim later [ some x ↦ some x | none ↦ if same then some f else none ])
data_or_later d f true none = refl
data_or_later d f false none = refl
data_or_later d f same (some x) = refl

pub put_functions_table :
    (m : ModuleData) (fs : List Function) (table : List FunctionData) (i : ℕ) (d : FunctionData)
    → m.functions ≡ some table
    → get_elem? table i ≡ some d
    → at (put_functions m fs).functions i ≡ some (data_or d (find_last fs i))
unfolding put_functions set_function
put_functions_table m [] table i d t h = rw t h
put_functions_table m (f ∷ fs) table i d t h =
    put_functions_table (set_function m f.f_id (data_of f)) fs (set table f.f_id (data_of f)) i
      (if f.f_id == i then data_of f else d) (rw t refl) (set_lookup table f.f_id i (data_of f) d h)
    ∙ ap some (data_or_later d f (f.f_id == i) (find_last fs i))
