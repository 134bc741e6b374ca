-- ===== src/Load/WholeBlocks.antt =====
-- monitor/src/monitor_load.c: the two loaders of blocks keep the arrays as long as they are
-- counted.
use picon.Base.{
  ℕ, zero, suc, ◌+◌, ◌≡◌, sym, Bool, true, ◌==◌, leb, List, set, replicate, length-replicate,
  Option, none, some, arith, Bool-cases, Option-cases, inl, inr,
}
use mathlib.Core.Path.{subst}
use picon.Tables.{FunctionData, ModuleData, at}
use picon.Load.Cursor.{read_u32}
use picon.Load.Transitions.{fill_row, set_row}
use picon.Load.Blocks.{
  put_function, row_of, load_jumps, load_blocks, load_section_block_transition, load_ipds, skip_u32,
  load_section_block_ipd,
}
use picon.Load.Whole.{
  Spans, IsWholeFunction, IsWholeModule, set_row-Spans, put_function-IsWholeModule,
}
use picon.Load.FlowGraph.{allocate_blocks_lem}
use picon.Load.Whole.{AllAt-at, set-Spans}

-- The post-dominators with one set.
set_ipd-IsWholeFunction :
    (f : FunctionData) (ipds : List ℕ) (i v : ℕ)
    → f.immediate_post_dominator ≡ some ipds
    → IsWholeFunction f
    → IsWholeFunction (record f { immediate_post_dominator = some (set ipds i v) })
set_ipd-IsWholeFunction f ipds i v e w = record {
  jumps_span = w.jumps_span;
  post_dominators_span =
      set-Spans f.nb_blocks ipds i v (subst (λ p. Spans f.nb_blocks p) (e) w.post_dominators_span);
}

load_ipds-IsWholeModule :
    (rounds : ℕ) (ptr : List ℕ) (m m' : ModuleData) (c : ℕ)
    → load_ipds rounds ptr m ≡ some (c, m')
    → IsWholeModule m
    → IsWholeModule m'
unfolding load_ipds
load_ipds-IsWholeModule zero ptr m m' c h w = let same : m ≡ m' = ground arith in rw (sym same) w
load_ipds-IsWholeModule (suc rounds) ptr m m' c h w = elim (Option-cases (read_u32 ptr)) [
  | inl e ↦ absurd (ground arith)
  | inr ((id, r₁), e) ↦ elim (Bool-cases (leb m.nb_functions id)) [
    | inl b ↦ let same : m ≡ m' = ground arith in rw (sym same) w
    | inr b ↦ elim (Option-cases (at m.functions id)) [
      | inl f ↦ absurd (ground arith)
      | inr (fd, f) ↦ elim (Option-cases fd.immediate_post_dominator) [
        | inl g ↦ let same : m ≡ m' = ground arith in rw (sym same) w
        | inr (ipds, g) ↦ elim (Option-cases (read_u32 r₁)) [
          | inl x ↦ absurd (ground arith)
          | inr ((block, r₂), x) ↦ elim (Bool-cases (leb fd.nb_blocks block)) [
            | inl y ↦ let same : m ≡ m' = ground arith in rw (sym same) w
            | inr y ↦ elim (Option-cases (read_u32 r₂)) [
              | inl z ↦ absurd (ground arith)
              | inr ((ipd, r₃), z) ↦
                  let fd' = record fd { immediate_post_dominator = some (set ipds block ipd) } in
                  let whole = AllAt-at IsWholeFunction m.functions id fd w.functions_whole f in
                  load_ipds-IsWholeModule rounds (skip_u32 r₃) (put_function m id fd') m' c
                    (ground arith)
                    (put_function-IsWholeModule m id fd'
                      (set_ipd-IsWholeFunction fd ipds block ipd g whole) w)
            ]
          ]
        ]
      ]
    ]
  ]
]

pub load_section_block_ipd-IsWholeModule :
    (value : List ℕ) (m m' : ModuleData) (c : ℕ)
    → load_section_block_ipd value m ≡ some (c, m')
    → IsWholeModule m
    → IsWholeModule m'
unfolding load_section_block_ipd
load_section_block_ipd-IsWholeModule value m m' c h w = elim (Option-cases m.functions) [
  | inl g ↦ let same : m ≡ m' = ground arith in rw (sym same) w
  | inr (fs, g) ↦ elim (Option-cases (read_u32 value)) [
    | inl e ↦ absurd (ground arith)
    | inr ((num, rest), e) ↦ load_ipds-IsWholeModule num rest m m' c (ground arith) w
  ]
]

module _ (alloc : ℕ → Bool) (allocates : (k : ℕ) → alloc k ≡ true) where
  set_row-IsWholeFunction :
      (f : FunctionData) (i : ℕ) (row : List ℕ)
      → IsWholeFunction f
      → IsWholeFunction (record f { control_flow_graph = set_row f.control_flow_graph i row })
  set_row-IsWholeFunction f i row w = record {
    jumps_span = set_row-Spans f.nb_blocks f.control_flow_graph i row w.jumps_span;
    post_dominators_span = w.post_dominators_span;
  }

  load_jumps-IsWholeFunction :
      (rounds k : ℕ) (ptr : List ℕ) (f f' : FunctionData) (c : ℕ)
      → load_jumps alloc rounds k ptr f ≡ some (c, f')
      → IsWholeFunction f
      → IsWholeFunction f'
  unfolding load_jumps
  load_jumps-IsWholeFunction zero k ptr f f' c h w =
      let same : f ≡ f' = ground arith in rw (sym same) w
  load_jumps-IsWholeFunction (suc rounds) k ptr f f' c h w = elim (Option-cases (read_u32 ptr)) [
    | inl e ↦ absurd (ground arith)
    | inr ((id, r₁), e) ↦ elim (Bool-cases (leb f.nb_blocks id)) [
      | inl b ↦ let same : f ≡ f' = ground arith in rw (sym same) w
      | inr b ↦ elim (Option-cases (at f.control_flow_graph id)) [
        | inl g ↦ absurd (ground arith)
        | inr (old, g) ↦ elim (Option-cases (row_of alloc k f.nb_blocks old)) [
          | inl x ↦ let same : f ≡ f' = ground arith in rw (sym same) w
          | inr (row, x) ↦ elim (Option-cases (read_u32 r₁)) [
            | inl y ↦ absurd (ground arith)
            | inr ((num, r₂), y) ↦ elim (Option-cases (fill_row 10 f.nb_blocks num r₂ row)) [
              | inl r ↦ absurd (ground arith)
              | inr (filled, r) ↦
                  let next = record f {
                    control_flow_graph = set_row f.control_flow_graph id filled.row;
                  } in
                  let w' = set_row-IsWholeFunction f id filled.row w in
                  elim (Bool-cases (filled.code == 0)) [
                    | inr z ↦ let same : next ≡ f' = ground arith in rw (sym same) w'
                    | inl z ↦
                        load_jumps-IsWholeFunction rounds (k + 1) filled.rest next f' c
                          (ground arith) w'
                  ]
            ]
          ]
        ]
      ]
    ]
  ]

  load_blocks-IsWholeFunction :
      (n : ℕ) (ptr : List ℕ) (f f' : FunctionData) (c : ℕ)
      → load_blocks alloc n ptr f ≡ some (c, f')
      → IsWholeFunction f'
  unfolding load_blocks
  load_blocks-IsWholeFunction n ptr f f' c h = elim (Option-cases (read_u32 ptr)) [
    | inl e ↦ absurd (ground (arith, allocate_blocks_lem alloc allocates n f))
    | inr ((num, rest), e) ↦
        let start = record f {
          nb_blocks = n;
          control_flow_graph = some (replicate n none);
          immediate_post_dominator = some (replicate n 0);
        } in
        load_jumps-IsWholeFunction num 2 rest start f' c
          (ground (arith, allocate_blocks_lem alloc allocates n f))
          (record {
            jumps_span = omega (arith, length-replicate {A = Option (List ℕ)} n none);
            post_dominators_span = omega (arith, length-replicate {A = ℕ} n 0);
          })
  ]

  pub load_section_block_transition-IsWholeModule :
      (value : List ℕ) (m m' : ModuleData) (c : ℕ)
      → load_section_block_transition alloc value m ≡ some (c, m')
      → IsWholeModule m
      → IsWholeModule m'
  unfolding load_section_block_transition
  load_section_block_transition-IsWholeModule value m m' c h w = elim (Option-cases m.functions) [
    | inl g ↦ let same : m ≡ m' = ground arith in rw (sym same) w
    | inr (fs, g) ↦ elim (Bool-cases (m.nb_functions == 0)) [
      | inl b ↦ let same : m ≡ m' = ground arith in rw (sym same) w
      | inr b ↦ elim (Option-cases (read_u32 value)) [
        | inl e ↦ absurd (ground arith)
        | inr ((id, r₁), e) ↦ elim (Bool-cases (leb m.nb_functions id)) [
          | inl x ↦ let same : m ≡ m' = ground arith in rw (sym same) w
          | inr x ↦ elim (Option-cases (at m.functions id)) [
            | inl y ↦ absurd (ground arith)
            | inr (fd, y) ↦ elim (Bool-cases (fd.nb_blocks == 0)) [
              | inr z ↦ let same : m ≡ m' = ground arith in rw (sym same) w
              | inl z ↦ elim (Option-cases (read_u32 r₁)) [
                | inl t ↦ absurd (ground arith)
                | inr ((n, r₂), t) ↦ elim (Bool-cases (n == 0)) [
                  | inl u ↦ let same : m ≡ m' = ground arith in rw (sym same) w
                  | inr u ↦ elim (Option-cases (load_blocks alloc n r₂ fd)) [
                    | inl v ↦ absurd (ground arith)
                    | inr ((c', fd'), v) ↦
                        let same : put_function m id fd' ≡ m' = ground arith in
                        rw (sym same) (
                          put_function-IsWholeModule m id fd'
                            (load_blocks-IsWholeFunction n r₂ fd fd' c' v) w)
                  ]
                ]
              ]
            ]
          ]
        ]
      ]
    ]
  ]
