-- ===== src/Load/Functions.antt =====
-- monitor/src/monitor_load.c, `load_section_function_id`.
use picon.Base.{
  ℕ, zero, suc, ◌+◌, ◌%◌, ◌^◌, Bool, true, false, ◌==◌, leb, if◌then◌else◌, List, Option, none,
  some, replicate,
}
use picon.Tables.{put_at, FunctionData, ModuleData, is_entrypoint_init, is_entrypoint_fini}
use picon.Load.Cursor.{◌>>=◌, read_u32, read_name}

-- A cell of zero bytes.
abbrev pub zero_function : FunctionData
zero_function = record {
  name = none;
  flags = 0;
  nb_blocks = 0;
  control_flow_graph = none;
  immediate_post_dominator = none;
}

-- `++` on an `unsigned int`
abbrev pub increment : ℕ → ℕ
increment n = (n + 1) % 2 ^ 32

-- The loop's body, once its fields are read: `data->functions[f_id]` is filled, and the entry
-- points are counted.
unfoldable pub set_function : ModuleData → ℕ → FunctionData → ModuleData
set_function m f_id fd = record m {
  functions = put_at m.functions f_id fd;
  nb_entrypoint_inits =
      if is_entrypoint_init fd then increment m.nb_entrypoint_inits else m.nb_entrypoint_inits;
  nb_entrypoint_finis =
      if is_entrypoint_fini fd then increment m.nb_entrypoint_finis else m.nb_entrypoint_finis;
}

module _ (alloc : ℕ → Bool) where
  -- The loop over `rounds` functions, whose fields begin at `ptr`; `k` numbers the allocations of
  -- `strdup`, whose answer is stored as it is.
  unfoldable pub load_functions : ℕ → ℕ → List ℕ → ModuleData → Option (ℕ × ModuleData)
  load_functions zero k ptr m = some (0, m)
  load_functions (suc rounds) k ptr m = do
    id ← read_u32 ptr
    elim (leb m.nb_functions id.0) [
      | true ↦ some (3, m)
      | false ↦ do
        flags ← read_u32 id.1
        name ← read_name flags.1
        load_functions rounds (k + 1) name.1 (
            set_function m id.0 (record {
              name = if alloc k then some name.0 else none;
              flags = flags.0;
              nb_blocks = 0;
              control_flow_graph = none;
              immediate_post_dominator = none;
            }))
    ]

  -- The three arrays are allocated in order, and the first failure leaves the rest NULL.
  unfoldable pub allocate_module : ℕ → ModuleData → Bool × ModuleData
  allocate_module n m = elim (alloc 0) [
    | false ↦ (false, record m { nb_functions = n; call_graph = none })
    | true ↦
        let m₁ = record m { nb_functions = n; call_graph = some (replicate n none) } in
        elim (alloc 1) [
          | false ↦ (false, record m₁ { relocations = none })
          | true ↦
              let m₂ = record m₁ { relocations = some (replicate n 0) } in
              elim (alloc 2) [
                | false ↦ (false, record m₂ { functions = none })
                | true ↦ (true, record m₂ { functions = some (replicate n zero_function) })
              ]
        ]
  ]

  -- `load_section_function_id`, on the bytes of the packet
  unfoldable pub load_section_function_id : List ℕ → ModuleData → Option (ℕ × ModuleData)
  load_section_function_id fct m = elim (m.nb_functions == 0) [
    | false ↦ some (1, m)
    | true ↦ do
      num_fcts ← read_u32 fct
      let r = allocate_module num_fcts.0 m
      elim r.0 [ false ↦ some (2, r.1) | true ↦ load_functions num_fcts.0 3 num_fcts.1 r.1 ]
  ]
