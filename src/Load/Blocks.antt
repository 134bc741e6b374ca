-- ===== src/Load/Blocks.antt =====
-- monitor/src/monitor_load.c, `load_section_block_transition` and `load_section_block_ipd`.
use picon.Base.{
  ℕ, zero, suc, ◌+◌, Bool, true, false, ◌==◌, leb, List, [], ◌∷◌, Option, none, some, set,
  replicate,
}
use picon.Tables.{put_at, FunctionData, ModuleData, at}
use picon.Load.Cursor.{◌>>=◌, read_u32}
use picon.Load.Transitions.{fill_row, set_row}

-- The tables with the data of one function put in.
abbrev pub put_function : ModuleData → ℕ → FunctionData → ModuleData
put_function m f_id fd = record m { functions = put_at m.functions f_id fd }

module _ (alloc : ℕ → Bool) where
  -- The two arrays of a function are allocated in order; the first failure leaves the other as it
  -- was.
  unfoldable pub allocate_blocks : ℕ → FunctionData → Bool × FunctionData
  allocate_blocks n fd = elim (alloc 0) [
    | false ↦ (false, record fd { nb_blocks = n; control_flow_graph = none })
    | true ↦
        let fd₁ = record fd { nb_blocks = n; control_flow_graph = some (replicate n none) } in
        elim (alloc 1) [
          | false ↦ (false, record fd₁ { immediate_post_dominator = none })
          | true ↦ (true, record fd₁ { immediate_post_dominator = some (replicate n 0) })
        ]
  ]

  -- The row of a block: one that is NULL is allocated.
  abbrev pub row_of : ℕ → ℕ → Option (List ℕ) → Option (List ℕ)
  row_of k n (some old) = some old
  row_of k n none = elim (alloc k) [ true ↦ some (replicate n 0) | false ↦ none ]

  -- The loop over `rounds` blocks from `ptr` on; `k` numbers the rounds.
  unfoldable pub load_jumps : ℕ → ℕ → List ℕ → FunctionData → Option (ℕ × FunctionData)
  load_jumps zero k ptr fd = some (0, fd)
  load_jumps (suc rounds) k ptr fd = do
    id ← read_u32 ptr
    elim (leb fd.nb_blocks id.0) [
      | true ↦ some (7, fd)
      | false ↦ do
        old ← at fd.control_flow_graph id.0
        elim (row_of k fd.nb_blocks old) [
          | none ↦ some (9, fd)
          | some row ↦ do
            num ← read_u32 id.1
            f ← fill_row 10 fd.nb_blocks num.0 num.1 row
            let fd' = record fd { control_flow_graph = set_row fd.control_flow_graph id.0 f.row }
            elim (f.code == 0) [
              | false ↦ some (f.code, fd')
              | true ↦ load_jumps rounds (k + 1) f.rest fd'
            ]
        ]
    ]

  -- `load_section_block_transition` once the function is found
  unfoldable pub load_blocks : ℕ → List ℕ → FunctionData → Option (ℕ × FunctionData)
  load_blocks num_block ptr fd =
      let r = allocate_blocks num_block fd in
      elim r.0 [
        | false ↦ some (6, r.1)
        | true ↦ do num ← read_u32 ptr; load_jumps num.0 2 num.1 r.1
      ]

  -- `load_section_block_transition`, on the bytes of the packet
  unfoldable pub load_section_block_transition : List ℕ → ModuleData → Option (ℕ × ModuleData)
  load_section_block_transition trans m = elim m.functions [
    | none ↦ some (1, m)
    | some fs ↦ elim (m.nb_functions == 0) [
      | true ↦ some (2, m)
      | false ↦ do
        id ← read_u32 trans
        elim (leb m.nb_functions id.0) [
          | true ↦ some (3, m)
          | false ↦ do
            fd ← at m.functions id.0
            elim (fd.nb_blocks == 0) [
              | false ↦ some (4, m)
              | true ↦ do
                num_block ← read_u32 id.1
                elim (num_block.0 == 0) [
                  | true ↦ some (5, m)
                  | false ↦ do
                    r ← load_blocks num_block.0 num_block.1 fd
                    some (r.0, put_function m id.0 r.1)
                ]
            ]
        ]
    ]
  ]

-- What follows a field that is not read.
abbrev pub skip_u32 : List ℕ → List ℕ
skip_u32 (a ∷ b ∷ c ∷ d ∷ rest) = rest
skip_u32 _ = []

-- The loop of `load_section_block_ipd`; `b_last_id` is not read.
unfoldable pub load_ipds : ℕ → List ℕ → ModuleData → Option (ℕ × ModuleData)
load_ipds zero ptr m = some (0, m)
load_ipds (suc rounds) ptr m = do
  id ← read_u32 ptr
  elim (leb m.nb_functions id.0) [
    | true ↦ some (2, m)
    | false ↦ do
      fd ← at m.functions id.0
      elim fd.immediate_post_dominator [
        | none ↦ some (4, m)
        | some ipds ↦ do
          b ← read_u32 id.1
          elim (leb fd.nb_blocks b.0) [
            | true ↦ some (5, m)
            | false ↦ do
              ipd ← read_u32 b.1
              load_ipds rounds (skip_u32 ipd.1) (
                  put_function m id.0
                    (record fd { immediate_post_dominator = some (set ipds b.0 ipd.0) }))
          ]
      ]
  ]

-- `load_section_block_ipd`, on the bytes of the packet
unfoldable pub load_section_block_ipd : List ℕ → ModuleData → Option (ℕ × ModuleData)
load_section_block_ipd ipd m = elim m.functions [
  | none ↦ some (1, m)
  | some fs ↦ do num ← read_u32 ipd; load_ipds num.0 num.1 m
]
