-- ===== src/Dot/Complete.antt =====
-- monitor/src/monitor_dot.c: the two functions on tables whose arrays are long enough.
use picon.Base.{
  ℕ, zero, suc, ◌+◌, ◌<◌, ◌≤◌, ◌≡◌, ◌↔◌, refl, ◌==◌, ◌++◌, Bool, true, false, List, [], ◌∷◌, length,
  get_elem?, Option, none, some, arith,
}
use picon.Tables.{Matrix, at, FunctionData, ModuleData}
use picon.Run.Spec.{HasEdge}
use picon.Dot.Printed.{occurs_edge, print_rows-HasEdge}
use picon.Dot.{monitor_control_flow_graph, is_printed, print_row, print_rows, monitor_call_graph}

-- A row is NULL, or it has `n` cells or more.
abbrev pub IsRow : ℕ → Option (List ℕ) → Type 0
IsRow n none = Unit {0}
IsRow n (some cells) = n ≤ length cells

-- `n` rows of `n` cells each.
pub record IsSquare (n : ℕ) (m : Matrix) : Type 0 where
  pub rows : (i : ℕ) → i < n → (row : Option (List ℕ)) × (at m i ≡ some row) × IsRow n row

get_elem?-some :
    (cells : List ℕ) (j : ℕ) → j < length cells → (cell : ℕ) × (get_elem? cells j ≡ some cell)
get_elem?-some [] j h = absurd (omega (arith, h))
get_elem?-some (c ∷ cells) zero h = (c, refl)
get_elem?-some (c ∷ cells) (suc j) h = get_elem?-some cells j (omega (arith, h))

is_printed-returns :
    (m : Matrix) (n i j : ℕ) (row : Option (List ℕ))
    → at m i ≡ some row
    → IsRow n row
    → j < n
    → (e : Bool) × (is_printed m i j ≡ some e)
unfolding is_printed
is_printed-returns m n i j none q r k = (false, ground arith)
is_printed-returns m n i j (some cells) q r k =
    let (cell, c) = get_elem?-some cells j (omega (arith, r, k)) in
    (elim (cell == 0) [ true ↦ false | false ↦ true ], ground arith)

print_row-step :
    (m : Matrix) (i k j : ℕ) (e : Bool) (rest : List (ℕ × ℕ))
    → is_printed m i j ≡ some e
    → print_row m i k (j + 1) ≡ some rest
    → print_row m i (suc k) j ≡ some (elim e [ true ↦ (i, j) ∷ rest | false ↦ rest ])
unfolding print_row
print_row-step m i k j e rest here later = ground arith

print_rows-step :
    (m : Matrix) (n k i : ℕ) (row rest : List (ℕ × ℕ))
    → print_row m i n 0 ≡ some row
    → print_rows m n k (i + 1) ≡ some rest
    → print_rows m n (suc k) i ≡ some (row ++ rest)
unfolding print_rows
print_rows-step m n k i row rest here later = ground arith

print_row-returns :
    (m : Matrix) (n i k j : ℕ) (row : Option (List ℕ))
    → at m i ≡ some row
    → IsRow n row
    → j + k ≤ n
    → (es : List (ℕ × ℕ)) × (print_row m i k j ≡ some es)
unfolding print_row
print_row-returns m n i zero j row q r le = ([], refl)
print_row-returns m n i (suc k) j row q r le =
    let (e, here) = is_printed-returns m n i j row q r (omega (arith, le)) in
    let (rest, later) = print_row-returns m n i k (j + 1) row q r (omega (arith, le)) in
    (elim e [ true ↦ (i, j) ∷ rest | false ↦ rest ], print_row-step m i k j e rest here later)

print_rows-returns :
    (m : Matrix) (n k i : ℕ)
    → IsSquare n m
    → i + k ≤ n
    → (es : List (ℕ × ℕ)) × (print_rows m n k i ≡ some es)
unfolding print_rows
print_rows-returns m n zero i s le = ([], refl)
print_rows-returns m n (suc k) i s le =
    let (row, q, r) = s.rows i (omega (arith, le)) in
    let (first, here) = print_row-returns m n i n 0 row q r (omega arith) in
    let (rest, later) = print_rows-returns m n k (i + 1) s (omega (arith, le)) in
    (first ++ rest, print_rows-step m n k i first rest here later)

-- Let the call graph of a module have a row for each function, and the control flow graph of a
-- function a row for each block, and let each row that is not NULL have a cell for each. Then
-- both graphs are printed, and an edge is printed exactly when it is between two of the functions
-- or blocks and the graph has it.
pub graphs_printed :
    (md : ModuleData) (f : FunctionData) (i j : ℕ)
    → IsSquare md.nb_functions md.call_graph
    → IsSquare f.nb_blocks f.control_flow_graph
    → ((calls : List (ℕ × ℕ)) × (monitor_call_graph md ≡ some calls)
        × ((occurs_edge i j calls ≡ true)
            ↔ ((i < md.nb_functions) × (j < md.nb_functions) × HasEdge md.call_graph i j)))
      × ((jumps : List (ℕ × ℕ)) × (monitor_control_flow_graph f ≡ some jumps)
          × ((occurs_edge i j jumps ≡ true)
              ↔ ((i < f.nb_blocks) × (j < f.nb_blocks) × HasEdge f.control_flow_graph i j)))
unfolding monitor_call_graph monitor_control_flow_graph
graphs_printed md f i j s t =
    let (calls, c) =
      print_rows-returns md.call_graph md.nb_functions md.nb_functions 0 s (omega arith) in
    let (jumps, d) =
      print_rows-returns f.control_flow_graph f.nb_blocks f.nb_blocks 0 t (omega arith) in
    (
      (calls, c, print_rows-HasEdge md.call_graph md.nb_functions calls i j c),
      (jumps, d, print_rows-HasEdge f.control_flow_graph f.nb_blocks jumps i j d),
    )
