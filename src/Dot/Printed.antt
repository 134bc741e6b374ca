-- ===== src/Dot/Printed.antt =====
-- monitor/src/monitor_dot.c: which edges are printed.
use picon.Base.{
  ℕ, zero, suc, ◌+◌, ◌<◌, ◌≡◌, ◌↔◌, refl, ◌∙◌, sym, ap, Bool, true, false, ◌==◌, ◌||◌, ◌&&◌, leb,
  ltb, List, [], ◌∷◌, ◌++◌, none, some, get_elem?, Bool-cases, Option-cases, inl, inr, arith,
}
use picon.Tables.{Matrix, at}
use picon.Run.Spec.{HasEdge}
use picon.Dot.{is_printed, print_row, print_rows}

-- An edge is among the printed ones.
abbrev pub occurs_edge : ℕ → ℕ → List (ℕ × ℕ) → Bool
occurs_edge a b [] = false
occurs_edge a b (e ∷ es) = ((e.0 == a) && (e.1 == b)) || occurs_edge a b es

abbrev is_edge : Matrix → ℕ → ℕ → Bool
is_edge m i j = elim (is_printed m i j) [ none ↦ false | some e ↦ e ]

abbrev in_span : ℕ → ℕ → ℕ → Bool
in_span j k b = leb j b && ltb b (j + k)

occurs_edge-append :
    (a b : ℕ) (xs ys : List (ℕ × ℕ))
    → occurs_edge a b (xs ++ ys) ≡ (occurs_edge a b xs || occurs_edge a b ys)
occurs_edge-append a b [] ys = refl
occurs_edge-append a b (x ∷ xs) ys = elim (Bool-cases ((x.0 == a) && (x.1 == b))) [
  | inl t ↦ rw t refl
  | inr t ↦ rw t (occurs_edge-append a b xs ys)
]

in_span-step : (j k b : ℕ) → in_span j (suc k) b ≡ ((j == b) || in_span (j + 1) k b)
in_span-step j k b = ground arith

in_span-start : (j k b : ℕ) → j ≡ b → in_span (j + 1) k b ≡ false
in_span-start j k b e = ground arith

in_span-empty : (j b : ℕ) → in_span j 0 b ≡ false
in_span-empty j b = ground arith

-- The cell (i, j) of the row before the rest of the row.
cell_first :
    (m : Matrix) (i k j a b : ℕ) (e : Bool) (rest : List (ℕ × ℕ))
    → is_edge m i j ≡ e
    → occurs_edge a b rest ≡ ((i == a) && in_span (j + 1) k b && is_edge m i b)
    → occurs_edge a b (elim e [ true ↦ (i, j) ∷ rest | false ↦ rest ])
      ≡ ((i == a) && in_span j (suc k) b && is_edge m i b)
cell_first m i k j a b e rest q later = rw (in_span-step j k b) (elim (Bool-cases (j == b)) [
  | inl here ↦
      let same : j ≡ b = ground arith in
      let edge : is_edge m i b ≡ e = ap (is_edge m i) (sym same) ∙ q in
      let past = in_span-start j k b same in
      let gone : occurs_edge a b rest ≡ false =
        later ∙ rw past (elim (Bool-cases (i == a)) [ inl s ↦ rw s refl | inr s ↦ rw s refl ]) in
      elim (Bool-cases (i == a)) [
        | inl row ↦ elim (Bool-cases e) [
          | inl t ↦ rw (edge, t, row, here) refl
          | inr t ↦ rw (edge, t, row, here) gone
        ]
        | inr row ↦ elim (Bool-cases e) [ inl t ↦ rw (t, row) gone | inr t ↦ rw (t, row) gone ]
      ]
  | inr there ↦ elim (Bool-cases e) [
    | inl t ↦ elim (Bool-cases (i == a)) [
      | inl row ↦ rw (t, row, there) (later ∙ rw row refl)
      | inr row ↦ rw (t, row) (later ∙ rw row refl)
    ]
    | inr t ↦ rw (t, there) later
  ]
])

print_row_lem :
    (m : Matrix) (i k j : ℕ) (es : List (ℕ × ℕ)) (a b : ℕ)
    → print_row m i k j ≡ some es
    → occurs_edge a b es ≡ ((i == a) && in_span j k b && is_edge m i b)
unfolding print_row
print_row_lem m i zero j es a b h =
    let none_left : [] ≡ es = ground arith in
    ap (occurs_edge a b) (sym none_left)
    ∙ rw (in_span-empty j b) (elim (Bool-cases (i == a)) [ inl s ↦ rw s refl | inr s ↦ rw s refl ])
print_row_lem m i (suc k) j es a b h = elim (Option-cases (is_printed m i j)) [
  | inl n ↦ absurd (ground arith)
  | inr (e, q) ↦ elim (Option-cases (print_row m i k (j + 1))) [
    | inl n ↦ absurd (ground arith)
    | inr (rest, r) ↦
        let row : elim e [ true ↦ (i, j) ∷ rest | false ↦ rest ] ≡ es = ground arith in
        ap (occurs_edge a b) (sym row)
        ∙ cell_first m i k j a b e rest (ap (λ o. elim o [ none ↦ false | some x ↦ x ]) q)
            (print_row_lem m i k (j + 1) rest a b r)
  ]
]

rows_bool :
    (here later span own edge : Bool)
    → (here ≡ true → later ≡ false)
    → (here ≡ true → own ≡ edge)
    → ((here && span && own) || (later && span && edge)) ≡ ((here || later) && span && edge)
rows_bool false later span own edge p q = refl
rows_bool true later false own edge p q = rw (p refl) refl
rows_bool true later true own edge p q =
    rw (p refl, q refl) (elim (Bool-cases edge) [ inl s ↦ rw s refl | inr s ↦ rw s refl ])

print_rows_lem :
    (m : Matrix) (n k i : ℕ) (es : List (ℕ × ℕ)) (a b : ℕ)
    → print_rows m n k i ≡ some es
    → occurs_edge a b es ≡ (in_span i k a && in_span 0 n b && is_edge m a b)
unfolding print_rows
print_rows_lem m n zero i es a b h =
    let none_left : [] ≡ es = ground arith in
    ap (occurs_edge a b) (sym none_left) ∙ rw (in_span-empty i a) refl
print_rows_lem m n (suc k) i es a b h = elim (Option-cases (print_row m i n 0)) [
  | inl none_left ↦ absurd (ground arith)
  | inr (row, q) ↦ elim (Option-cases (print_rows m n k (i + 1))) [
    | inl none_left ↦ absurd (ground arith)
    | inr (rest, r) ↦
        let whole : row ++ rest ≡ es = ground arith in
        let first = print_row_lem m i n 0 row a b q in
        let later = print_rows_lem m n k (i + 1) rest a b r in
        ap (occurs_edge a b) (sym whole)
        ∙ occurs_edge-append a b row rest
        ∙ ap (λ x. x || occurs_edge a b rest) first
        ∙ ap (λ x. ((i == a) && in_span 0 n b && is_edge m i b) || x) later
        ∙ rows_bool (i == a) (in_span (i + 1) k a) (in_span 0 n b) (is_edge m i b) (is_edge m a b)
            (λ here. in_span-start i k a (ground arith))
            (λ here. ap (λ x. is_edge m x b) (ground arith))
        ∙ ap (λ x. x && in_span 0 n b && is_edge m a b) (sym (in_span-step i k a))
  ]
]

-- The test before `printf`.
is_edge-HasEdge : (m : Matrix) (i j : ℕ) → is_edge m i j ≡ true → HasEdge m i j
unfolding is_printed
is_edge-HasEdge m i j h = elim (Option-cases (at m i)) [
  | inl n ↦ absurd (ground arith)
  | inr (none, q) ↦ absurd (ground arith)
  | inr (some cells, q) ↦ elim (Option-cases (get_elem? cells j)) [
    | inl n ↦ absurd (ground arith)
    | inr (cell, r) ↦ record {
      weight = cell;
      entry = ground arith;
      nonzero = λ e. absurd (ground arith);
    }
  ]
]

HasEdge-is_edge : (m : Matrix) (i j : ℕ) → HasEdge m i j → is_edge m i j ≡ true
unfolding is_printed
HasEdge-is_edge m i j h = elim (Option-cases (at m i)) [
  | inl n ↦ let e = h.entry in absurd (ground arith)
  | inr (none, q) ↦ let e = h.entry in absurd (ground arith)
  | inr (some cells, q) ↦ elim (Bool-cases (h.weight == 0)) [
    | inl z ↦ absurd (h.nonzero (ground arith))
    | inr z ↦ let e = h.entry in ground arith
  ]
]

lt-in_span : (n i : ℕ) → i < n → in_span 0 n i ≡ true
lt-in_span n i h = ground (arith, h)

in_span-lt : (n i : ℕ) → in_span 0 n i ≡ true → i < n
in_span-lt n i h = ground (arith, h)

and_parts : (x y z : Bool) → (x && y && z) ≡ true → (x ≡ true) × (y ≡ true) × (z ≡ true)
and_parts true true true h = (refl, refl, refl)
and_parts true true false h = absurd (ground arith)
and_parts true false z h = absurd (ground arith)
and_parts false y z h = absurd (ground arith)

-- The edges among the printed ones, in the words of the tables.
pub print_rows-HasEdge :
    (m : Matrix) (n : ℕ) (es : List (ℕ × ℕ)) (i j : ℕ)
    → print_rows m n n 0 ≡ some es
    → (occurs_edge i j es ≡ true) ↔ ((i < n) × (j < n) × HasEdge m i j)
print_rows-HasEdge m n es i j h =
    let all = print_rows_lem m n n 0 es i j h in
    (
      λ o.
          let (row, column, edge) =
            and_parts (in_span 0 n i) (in_span 0 n j) (is_edge m i j) (sym all ∙ o) in
          (in_span-lt n i row, in_span-lt n j column, is_edge-HasEdge m i j edge),
      λ (row, column, edge).
          all
          ∙ ap (λ x. x && in_span 0 n j && is_edge m i j) (lt-in_span n i row)
          ∙ ap (λ x. x && is_edge m i j) (lt-in_span n j column)
          ∙ HasEdge-is_edge m i j edge,
    )
