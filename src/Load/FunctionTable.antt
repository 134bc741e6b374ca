-- ===== src/Load/FunctionTable.antt =====
-- monitor/src/monitor_load.c: `load_section_function_id` on the bytes of some functions.
use picon.Base.{
  ℕ, zero, suc, ◌+◌, ◌^◌, ◌≤◌, ◌<◌, ◌≡◌, refl, ◌∙◌, Bool, true, false, ◌==◌, leb, List, [], ◌∷◌,
  ◌++◌, none, some, length, get_elem?, replicate, arith,
}
use picon.Tables.{FunctionData, ModuleData, at, fct_init, fct_fini}
use picon.Load.Cursor.{◌>>=◌, u32_bytes, read_u32-bytes, read_name-append}
use picon.Load.Functions.{
  zero_function, set_function, load_functions, allocate_module, load_section_function_id,
}
use picon.Load.PutFunctions.{
  Function, functions_bytes, AreFunctions, data_of, find_last, data_or, count_flag, put_functions,
  count_flag-length, put_functions_inits, put_functions_finis, put_functions_counts,
  put_functions_table,
}

set_function-counts :
    (m : ModuleData) (i : ℕ) (d : FunctionData) → (set_function m i d).nb_functions ≡ m.nb_functions
unfolding set_function
set_function-counts m i d = refl

replicate_lookup {ℓ} : {A : Type ℓ} (n i : ℕ) (a : A) → i < n → get_elem? (replicate n a) i ≡ some a
replicate_lookup zero i a h = absurd (omega arith)
replicate_lookup (suc n) zero a h = refl
replicate_lookup (suc n) (suc i) a h = replicate_lookup n i a (omega arith)

-- What the section of the functions `fs` makes of a module.
pub record HoldsFunctions (fs : List Function) (m : ModuleData) : Type 0 where
  pub functions_counted : m.nb_functions ≡ length fs
  pub calls_unset : m.call_graph ≡ some (replicate (length fs) none)
  pub relocations_unset : m.relocations ≡ some (replicate (length fs) 0)
  pub inits_counted : m.nb_entrypoint_inits ≡ count_flag fct_init fs
  pub finis_counted : m.nb_entrypoint_finis ≡ count_flag fct_fini fs
  pub table :
      (i : ℕ) → i < length fs → at m.functions i ≡ some (data_or zero_function (find_last fs i))

module _ (alloc : ℕ → Bool) (allocates : (k : ℕ) → alloc k ≡ true) where
  load_functions-bytes :
      (fs : List Function) (k : ℕ) (rest : List ℕ) (m : ModuleData)
      → m.nb_functions ≤ 2 ^ 32
      → AreFunctions m.nb_functions fs
      → load_functions alloc (length fs) k (functions_bytes fs rest) m
        ≡ some (0, put_functions m fs)
  unfolding load_functions put_functions
  load_functions-bytes [] k rest m w h = refl
  load_functions-bytes (f ∷ fs) k rest m w h =
      let after = functions_bytes fs rest in
      let below : leb m.nb_functions f.f_id ≡ false = ground (arith, h.0) in
      let flow = set_function-counts m f.f_id (data_of f) in
      rw
        (
          read_u32-bytes f.f_id (u32_bytes f.f_flags ++ (f.f_name ++ 0 ∷ after))
              (omega (arith, w, h.0)),
          ◌>>=◌,
          below,
          read_u32-bytes f.f_flags (f.f_name ++ 0 ∷ after) h.1,
          ◌>>=◌,
          read_name-append f.f_name after h.2,
          ◌>>=◌,
          allocates k,
        )
        (load_functions-bytes fs (k + 1) rest (set_function m f.f_id (data_of f)) (rw flow w)
          (rw flow h.3))

  pub allocate_module_lem :
      (n : ℕ) (m : ModuleData)
      → allocate_module alloc n m ≡ (
        true,
        record m {
          nb_functions = n;
          call_graph = some (replicate n none);
          relocations = some (replicate n 0);
          functions = some (replicate n zero_function);
        },
      )
  unfolding allocate_module
  allocate_module_lem n m = rw (allocate_module, allocates 0, allocates 1, allocates 2) refl

  -- The section of a module lists its functions: when the module has none yet, the ids are below
  -- the number of functions, the fields fit and no allocation fails, the section is loaded. The
  -- table then holds, at each id below that number, the last function listed with the id, or zeros
  -- where there is none; the entry points are counted without a wrap, and the call graph and the
  -- relocations are as `calloc` leaves them.
  pub function_table_exact :
      (m : ModuleData) (fs : List Function) (rest : List ℕ)
      → m.nb_functions ≡ 0
      → m.nb_entrypoint_inits ≡ 0
      → m.nb_entrypoint_finis ≡ 0
      → length fs < 2 ^ 32
      → AreFunctions (length fs) fs
      → (m' : ModuleData) × (load_section_function_id alloc
            (u32_bytes (length fs) ++ functions_bytes fs rest)
            m
          ≡ some (0, m'))
        × HoldsFunctions fs m'
  unfolding load_section_function_id
  function_table_exact m fs rest fresh inits finis fits h =
      let n = length fs in
      let start = record m {
        nb_functions = n;
        call_graph = some (replicate n none);
        relocations = some (replicate n 0);
        functions = some (replicate n zero_function);
      } in
      let unprocessed : (m.nb_functions == 0) ≡ true = ground arith in
      let (counted, calls, relocated) = put_functions_counts start fs in
      (
        put_functions start fs,
        rw
            (
              load_section_function_id,
              unprocessed,
              read_u32-bytes n (functions_bytes fs rest) fits,
              ◌>>=◌,
              allocate_module_lem n m,
              allocate_module_lem n m,
            )
            (load_functions-bytes fs 3 rest start (omega arith) h),
        record {
          functions_counted = counted;
          calls_unset = calls;
          relocations_unset = relocated;
          inits_counted =
              put_functions_inits start fs (omega (arith, inits, count_flag-length fct_init fs))
              ∙ omega (arith, inits);
          finis_counted =
              put_functions_finis start fs (omega (arith, finis, count_flag-length fct_fini fs))
              ∙ omega (arith, finis);
          table = λ i below.
              put_functions_table start fs (replicate n zero_function) i zero_function refl
                (replicate_lookup n i zero_function below);
        },
      )
