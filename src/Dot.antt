-- ===== src/Dot.antt =====
-- monitor/src/monitor_dot.c: the edges that the two functions print, in order. The lines around
-- them and the title, which prints the name of a function, are not modelled.
pub mod Printed
pub mod Complete
mod Tests
use picon.Base.{ℕ, zero, suc, ◌+◌, Bool, true, false, ◌==◌, List, [], ◌∷◌, ◌++◌, Option, none, some}
use picon.Load.Cursor.{◌>>=◌}
use picon.Tables.{Matrix, at, FunctionData, ModuleData}

-- The test before `printf`: a row that is NULL has no edges.
unfoldable pub is_printed : Matrix → ℕ → ℕ → Option Bool
is_printed m i j = do
  row ← at m i
  elim row [
    | none ↦ some false
    | some cells ↦ elim (at (some cells) j) [
      | none ↦ none
      | some cell ↦ some (elim (cell == 0) [ true ↦ false | false ↦ true ])
    ]
  ]

-- The inner loop: of the row `i`, what is printed for the `k` columns from `j` on.
unfoldable pub print_row : Matrix → ℕ → ℕ → ℕ → Option (List (ℕ × ℕ))
print_row m i zero j = some []
print_row m i (suc k) j = elim (is_printed m i j) [
  | none ↦ none
  | some e ↦ elim (print_row m i k (j + 1)) [
    | none ↦ none
    | some rest ↦ some (elim e [ true ↦ (i, j) ∷ rest | false ↦ rest ])
  ]
]

-- The outer loop: what is printed for the `k` rows from `i` on, of `n` columns.
unfoldable pub print_rows : Matrix → ℕ → ℕ → ℕ → Option (List (ℕ × ℕ))
print_rows m n zero i = some []
print_rows m n (suc k) i = elim (print_row m i n 0) [
  | none ↦ none
  | some row ↦ elim (print_rows m n k (i + 1)) [ none ↦ none | some rest ↦ some (row ++ rest) ]
]

-- `monitor_call_graph`
unfoldable pub monitor_call_graph : ModuleData → Option (List (ℕ × ℕ))
monitor_call_graph md = print_rows md.call_graph md.nb_functions md.nb_functions 0

-- `monitor_control_flow_graph`
unfoldable pub monitor_control_flow_graph : FunctionData → Option (List (ℕ × ℕ))
monitor_control_flow_graph f = print_rows f.control_flow_graph f.nb_blocks f.nb_blocks 0
