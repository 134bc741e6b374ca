-- ===== src/Load/Free.antt =====
-- monitor/src/monitor_load.c, `monitor_data_free`. An access through NULL or out of an array is
-- `none`; `free` of NULL does nothing, and each pointer is set to NULL where it is freed.
use picon.Base.{ℕ, zero, suc, ◌+◌, true, false, ◌==◌, Option, none, some, set}
use picon.Tables.{put_at, FunctionData, ModuleData, MonitorData, Matrix, at}
use picon.Load.Relocations.{put_module}

-- `if(p[i]) { free(p[i]); p[i] = NULL; }`
unfoldable pub free_row : Matrix → ℕ → Option Matrix
free_row none i = none
free_row (some rows) i = elim (at (some rows) i) [
  | none ↦ none
  | some row ↦ some (some (set rows i none))
]

-- The loop over `rounds` blocks from `k` on.
unfoldable pub free_rows : ℕ → ℕ → Matrix → Option Matrix
free_rows zero k p = some p
free_rows (suc rounds) k p = elim (free_row p k) [
  | none ↦ none
  | some p' ↦ free_rows rounds (k + 1) p'
]

-- What is left of a function.
abbrev pub freed_function : FunctionData → FunctionData
freed_function f = record f {
  name = none;
  nb_blocks = 0;
  control_flow_graph = none;
  immediate_post_dominator = none;
}

-- The body of the loop over the functions.
unfoldable pub free_function : ModuleData → ℕ → Option ModuleData
free_function m j = elim (at m.functions j) [
  | none ↦ none
  | some f ↦ elim (free_row m.call_graph j) [
    | none ↦ none
    | some calls ↦ elim (free_rows f.nb_blocks 0 f.control_flow_graph) [
      | none ↦ none
      | some jumps ↦
          some
            (record m { call_graph = calls; functions = put_at m.functions j (freed_function f) })
    ]
  ]
]

-- The loop over `rounds` functions from `j` on.
unfoldable pub free_functions : ℕ → ℕ → ModuleData → Option ModuleData
free_functions zero j m = some m
free_functions (suc rounds) j m = elim (free_function m j) [
  | none ↦ none
  | some m' ↦ free_functions rounds (j + 1) m'
]

-- The end of the loop over the modules.
abbrev pub free_arrays : ModuleData → ModuleData
free_arrays m = elim (m.nb_functions == 0) [
  | true ↦ m
  | false ↦ record m { functions = none; call_graph = none; relocations = none; nb_functions = 0 }
]

-- The loop over `rounds` modules from `i` on.
unfoldable pub free_modules : ℕ → ℕ → MonitorData → Option MonitorData
free_modules zero i mon = some mon
free_modules (suc rounds) i mon = elim (at mon.modules i) [
  | none ↦ none
  | some m ↦ elim (free_functions m.nb_functions 0 m) [
    | none ↦ none
    | some m' ↦
        free_modules rounds (i + 1)
          (record mon { modules = put_module mon.modules i (free_arrays m') })
  ]
]

-- `monitor_data_free`
unfoldable pub monitor_data_free : MonitorData → Option MonitorData
monitor_data_free mon = elim (free_modules mon.nb_modules 0 mon) [
  | none ↦ none
  | some mon' ↦ elim (mon'.nb_modules == 0) [
    | true ↦ some mon'
    | false ↦ some (record mon' { modules = none; nb_modules = 0 })
  ]
]
