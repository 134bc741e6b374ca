-- ===== src/Dot/Tests.antt =====
-- monitor/src/monitor_dot.c, run on small graphs.
use picon.Base.{ℕ, zero, suc, ◌<◌, ◌≡◌, ◌↔◌, refl, true, List, [], ◌∷◌, Option, none, some, arith}
use picon.Tables.{FunctionData, ModuleData, Matrix, at}
use picon.Run.Spec.{HasEdge}
use picon.Dot.{is_printed, print_row, print_rows, monitor_call_graph, monitor_control_flow_graph}
use picon.Dot.Printed.{occurs_edge}
use picon.Dot.Complete.{IsRow, graphs_printed}

-- The second row is NULL.
abbrev graph : Matrix
graph = some (some (0 ∷ 1 ∷ []) ∷ none ∷ [])

abbrev calls : ModuleData
calls = record {
  nb_functions = 2;
  nb_entrypoint_inits = 0;
  nb_entrypoint_finis = 0;
  call_graph = graph;
  relocations = none;
  functions = none;
}

abbrev jumps : FunctionData
jumps = record {
  name = none;
  flags = 0;
  nb_blocks = 2;
  control_flow_graph = graph;
  immediate_post_dominator = none;
}

calls_printed : monitor_call_graph calls ≡ some ((0, 1) ∷ [])
unfolding monitor_call_graph print_rows print_row is_printed
calls_printed = refl

jumps_printed : monitor_control_flow_graph jumps ≡ some ((0, 1) ∷ [])
unfolding monitor_control_flow_graph print_rows print_row is_printed
jumps_printed = refl

graph_rows : (i : ℕ) → i < 2 → (row : Option (List ℕ)) × (at graph i ≡ some row) × IsRow 2 row
graph_rows zero h = (some (0 ∷ 1 ∷ []), refl, omega arith)
graph_rows (suc zero) h = (none, refl, tt)
graph_rows (suc (suc i)) h = absurd (omega (arith, h))

-- Witnesses.
graphs_printed_example :
    ((es : List (ℕ × ℕ)) × (monitor_call_graph calls ≡ some es)
      × ((occurs_edge 0 1 es ≡ true) ↔ ((0 < 2) × (1 < 2) × HasEdge graph 0 1)))
    × ((es : List (ℕ × ℕ)) × (monitor_control_flow_graph jumps ≡ some es)
        × ((occurs_edge 0 1 es ≡ true) ↔ ((0 < 2) × (1 < 2) × HasEdge graph 0 1)))
graphs_printed_example =
    graphs_printed calls jumps 0 1 (record { rows = graph_rows }) (record { rows = graph_rows })
