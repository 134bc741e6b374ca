-- ===== src/Tables.antt =====
-- monitor/include/monitor_load.h: the tables of the loaded program, which
-- monitor/src/monitor_load.c fills and monitor/src/monitor_run.c reads. A pointer to an array is
-- `none` (NULL) or the array; a `uint8_t` of an adjacency matrix and an id are numbers.
use picon.Base.{ℕ, Bool, ◌||◌, ◌==◌, List, get_elem?, set, Option, none, some}

-- `fct_flag_t` of include/picon/shared.h.
abbrev pub fct_internal : ℕ
fct_internal = 0

abbrev pub fct_external : ℕ
fct_external = 1

abbrev pub fct_init : ℕ
fct_init = 2

abbrev pub fct_fini : ℕ
fct_fini = 3

abbrev pub fct_main : ℕ
fct_main = 4

-- `uint8_t **`: a row may be NULL.
abbrev pub Matrix : Type 0
Matrix = Option (List (Option (List ℕ)))

-- `function_data`; a name is the bytes before its NUL.
pub record FunctionData : Type 0 where
  pub name : Option (List ℕ)
  pub flags : ℕ
  pub nb_blocks : ℕ
  pub control_flow_graph : Matrix
  pub immediate_post_dominator : Option (List ℕ)

-- `module_data`
pub record ModuleData : Type 0 where
  pub nb_functions : ℕ
  pub nb_entrypoint_inits : ℕ
  pub nb_entrypoint_finis : ℕ
  pub call_graph : Matrix
  pub relocations : Option (List ℕ)
  pub functions : Option (List FunctionData)

-- `monitor_data`, without the process id and the descriptors.
pub record MonitorData : Type 0 where
  pub nb_modules : ℕ
  pub modules : Option (List ModuleData)

-- `p[i]`: `none` is an access through NULL or out of the array.
abbrev pub at {ℓ} : {A : Type ℓ} → Option (List A) → ℕ → Option A
at none i = none
at (some xs) i = get_elem? xs i

-- `p[i] = v`
abbrev pub put_at {ℓ} : {A : Type ℓ} → Option (List A) → ℕ → A → Option (List A)
put_at none i v = none
put_at (some xs) i v = some (set xs i v)

-- `p[i][j]`
abbrev pub at₂ : Matrix → ℕ → ℕ → Option ℕ
at₂ p i j = elim (at p i) [ none ↦ none | some row ↦ at row j ]

-- `FUNCTION_IS_ENTRYPOINT_MAIN`, `FUNCTION_IS_ENTRYPOINT_INIT`, `FUNCTION_IS_ENTRYPOINT_FINI`
abbrev pub is_entrypoint_main : FunctionData → Bool
is_entrypoint_main f = f.flags == fct_main

abbrev pub is_entrypoint_init : FunctionData → Bool
is_entrypoint_init f = f.flags == fct_init

abbrev pub is_entrypoint_fini : FunctionData → Bool
is_entrypoint_fini f = f.flags == fct_fini

-- `FUNCTION_IS_ENTRYPOINT`
abbrev pub is_entrypoint : FunctionData → Bool
is_entrypoint f = is_entrypoint_main f || is_entrypoint_init f || is_entrypoint_fini f

-- `FUNCTION_IS_EXTERNAL`
abbrev pub is_external : FunctionData → Bool
is_external f = f.flags == fct_external
