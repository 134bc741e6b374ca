-- ===== src/Load/Transitions.antt =====
-- monitor/src/monitor_load.c, `load_section_function_transition`, and the loop that fills one row
-- of an adjacency matrix, which `load_section_block_transition` has too.
use picon.Base.{
  ℕ, zero, suc, ◌+◌, Bool, true, false, ◌==◌, leb, List, Option, none, some, set, replicate,
}
use picon.Tables.{ModuleData, Matrix, at}
use picon.Load.Cursor.{◌>>=◌, read_u32}

-- How far a row is filled: its cells, the pointer after the ids, and 0 or the code of the error.
pub record Filled : Type 0 where
  pub code : ℕ
  pub row : List ℕ
  pub rest : List ℕ

-- The inner loop: each of `rounds` ids is checked against `bound`, and its cell set to 1.
unfoldable pub fill_row : ℕ → ℕ → ℕ → List ℕ → List ℕ → Option Filled
fill_row code bound zero ptr row = some (record { code = 0; row = row; rest = ptr })
fill_row code bound (suc rounds) ptr row = do
  c ← read_u32 ptr
  elim (leb bound c.0) [
    | true ↦ some (record { code = code; row = row; rest = ptr })
    | false ↦ fill_row code bound rounds c.1 (set row c.0 1)
  ]

-- `p[i] = row`
abbrev pub set_row : Matrix → ℕ → List ℕ → Matrix
set_row none i row = none
set_row (some rows) i row = some (set rows i (some row))

module _ (alloc : ℕ → Bool) where
  -- The outer loop, over `rounds` callers from `ptr` on; `k` numbers the allocations.
  unfoldable pub load_calls : ℕ → ℕ → List ℕ → ModuleData → Option (ℕ × ModuleData)
  load_calls zero k ptr m = some (0, m)
  load_calls (suc rounds) k ptr m = do
    id ← read_u32 ptr
    elim (leb m.nb_functions id.0) [
      | true ↦ some (3, m)
      | false ↦ do
        row ← at m.call_graph id.0
        elim row [
          | some old ↦ some (3, m)
          | none ↦ elim (alloc k) [
            | false ↦ some (2, m)
            | true ↦ do
              num ← read_u32 id.1
              f ← fill_row 3 m.nb_functions num.0 num.1 (replicate m.nb_functions 0)
              let m' = record m { call_graph = set_row m.call_graph id.0 f.row }
              elim (f.code == 0) [
                | false ↦ some (f.code, m')
                | true ↦ load_calls rounds (k + 1) f.rest m'
              ]
          ]
        ]
    ]

  -- `load_section_function_transition`, on the bytes of the packet
  unfoldable pub load_section_function_transition : List ℕ → ModuleData → Option (ℕ × ModuleData)
  load_section_function_transition trans m = elim m.call_graph [
    | none ↦ some (1, m)
    | some rows ↦ elim (m.nb_functions == 0) [
      | true ↦ some (1, m)
      | false ↦ do num ← read_u32 trans; load_calls num.0 0 num.1 m
    ]
  ]
