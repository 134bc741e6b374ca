-- ===== src/Load/FlowGraph.antt =====
-- monitor/src/monitor_load.c: `load_section_block_transition` on the bytes of some entries.
use picon.Base.{
  ℕ, zero, suc, ◌+◌, ◌^◌, ◌≤◌, ◌<◌, ◌≡◌, refl, ◌∙◌, ap, Bool, true, false, ◌==◌, leb, List, [], ◌∷◌,
  ◌++◌, Option, none, some, length, get_elem?, set, replicate, arith, Option-cases, inl, inr,
  length-set, length-replicate,
}
use picon.Tables.{FunctionData, ModuleData, at}
use picon.Load.Cursor.{◌>>=◌, u32_bytes, read_u32-bytes}
use picon.Load.Blocks.{
  allocate_blocks, row_of, load_jumps, load_blocks, put_function, load_section_block_transition,
}
use picon.Load.Rows.{
  Entry, ids_bytes, entries_bytes, AreEntries, listed, allows, mark, put_rows, row_or_zeros,
  allows-put_rows, replicate-RowsOf, replicate-allows, fill_row-bytes,
}

lookup_below {ℓ} :
    {A : Type ℓ} (xs : List A) (i : ℕ) → i < length xs → (x : A) × (get_elem? xs i ≡ some x)
lookup_below [] i h = absurd (omega arith)
lookup_below (x ∷ xs) zero h = (x, refl)
lookup_below (x ∷ xs) (suc i) h = lookup_below xs i (omega arith)

functions_of :
    (m : ModuleData) (i : ℕ) (fd : FunctionData)
    → at m.functions i ≡ some fd
    → (fs : List FunctionData) × (m.functions ≡ some fs)
functions_of m i fd h = elim (Option-cases m.functions) [
  | inl missing ↦ absurd (ground arith)
  | inr found ↦ found
]

-- A function that `load_section_block_transition` loads: its blocks are counted, its
-- post-dominators are 0, and its control flow graph allows what the entries list.
pub record HasFlow (fd fd' : FunctionData) (num_block : ℕ) (es : List Entry) : Type 0 where
  pub name_kept : fd'.name ≡ fd.name
  pub flags_kept : fd'.flags ≡ fd.flags
  pub blocks_counted : fd'.nb_blocks ≡ num_block
  pub post_dominators : fd'.immediate_post_dominator ≡ some (replicate num_block 0)
  pub jumps : (i j : ℕ) → allows fd'.control_flow_graph i j ≡ listed es i j

module _ (alloc : ℕ → Bool) (allocates : (k : ℕ) → alloc k ≡ true) where
  row_of_lem :
      (k n : ℕ) (old : Option (List ℕ)) → row_of alloc k n old ≡ some (row_or_zeros n (some old))
  row_of_lem k n none = rw (row_of, allocates k) refl
  row_of_lem k n (some row) = refl

  load_jumps-bytes :
      (es : List Entry) (k : ℕ) (rest : List ℕ) (fd : FunctionData) (rows : List (Option (List ℕ)))
      → fd.nb_blocks ≤ 2 ^ 32
      → fd.control_flow_graph ≡ some rows
      → length rows ≡ fd.nb_blocks
      → AreEntries fd.nb_blocks es
      → load_jumps alloc (length es) k (entries_bytes es rest) fd
        ≡ some (0, record fd { control_flow_graph = some (put_rows fd.nb_blocks rows es) })
  unfolding load_jumps
  load_jumps-bytes [] k rest fd rows w g l h =
      ap (λ p. some (0, record fd { control_flow_graph = p })) g
  load_jumps-bytes (e ∷ es) k rest fd rows w g l h =
      let n = fd.nb_blocks in
      let after = entries_bytes es rest in
      let below : leb n e.source ≡ false = ground (arith, h.0) in
      let (old, found) = lookup_below rows e.source (omega (arith, l, h.0)) in
      let before = row_or_zeros n (some old) in
      let row = some (mark before e.targets) in
      let fd' = record fd { control_flow_graph = some (set rows e.source row) } in
      rw
        (
          read_u32-bytes e.source (u32_bytes (length e.targets) ++ ids_bytes e.targets after)
              (omega (arith, w, h.0)),
          ◌>>=◌,
          below,
          g,
          found,
          ◌>>=◌,
          row_of_lem k n old,
          read_u32-bytes (length e.targets) (ids_bytes e.targets after) h.1,
          ◌>>=◌,
          fill_row-bytes 10 n e.targets after before w h.2,
          ◌>>=◌,
          g,
        )
        (load_jumps-bytes es (k + 1) rest fd' (set rows e.source row) w refl
          (length-set rows e.source row ∙ l) h.3)

  pub allocate_blocks_lem :
      (n : ℕ) (fd : FunctionData)
      → allocate_blocks alloc n fd ≡ (
        true,
        record fd {
          nb_blocks = n;
          control_flow_graph = some (replicate n none);
          immediate_post_dominator = some (replicate n 0);
        },
      )
  unfolding allocate_blocks
  allocate_blocks_lem n fd = rw (allocate_blocks, allocates 0, allocates 1) refl

  load_blocks-bytes :
      (es : List Entry) (n : ℕ) (rest : List ℕ) (fd : FunctionData)
      → n < 2 ^ 32
      → length es < 2 ^ 32
      → AreEntries n es
      → (fd' : FunctionData) × (load_blocks alloc n
            (u32_bytes (length es) ++ entries_bytes es rest)
            fd
          ≡ some (0, fd'))
        × HasFlow fd fd' n es
  unfolding load_blocks
  load_blocks-bytes es n rest fd w fits h =
      let rows : List (Option (List ℕ)) = replicate n none in
      let start = record fd {
        nb_blocks = n;
        control_flow_graph = some rows;
        immediate_post_dominator = some (replicate n 0);
      } in
      (
        record start { control_flow_graph = some (put_rows n rows es) },
        rw
            (
              load_blocks,
              allocate_blocks_lem n fd,
              read_u32-bytes (length es) (entries_bytes es rest) fits,
              ◌>>=◌,
              allocate_blocks_lem n fd,
            )
            (load_jumps-bytes es 2 rest start rows (omega arith) refl (length-replicate n none) h),
        record {
          name_kept = refl;
          flags_kept = refl;
          blocks_counted = refl;
          post_dominators = refl;
          jumps = λ i j.
              allows-put_rows n rows es i j (length-replicate n none) (replicate-RowsOf n n) h
              ∙ rw (replicate-allows n i j) refl;
        },
      )

  -- The section of a function lists its jumps: when the function is in the table and has no blocks
  -- yet, the ids are below the count of blocks and no allocation fails, the section is loaded, and
  -- the function's control flow graph then allows the jumps that are listed and no others, even
  -- where a block is listed twice; its name and flags stay, and its post-dominators are 0.
  pub flow_graph_exact :
      (m : ModuleData) (f_id num_block : ℕ) (fd : FunctionData) (es : List Entry) (rest : List ℕ)
      → m.nb_functions ≤ 2 ^ 32
      → f_id < m.nb_functions
      → at m.functions f_id ≡ some fd
      → fd.nb_blocks ≡ 0
      → 1 ≤ num_block
      → num_block < 2 ^ 32
      → length es < 2 ^ 32
      → AreEntries num_block es
      → (fd' : FunctionData) × (load_section_block_transition alloc
            (u32_bytes f_id
              ++ (u32_bytes num_block ++ (u32_bytes (length es) ++ entries_bytes es rest)))
            m
          ≡ some (0, put_function m f_id fd'))
        × HasFlow fd fd' num_block es
  unfolding load_section_block_transition
  flow_graph_exact m f_id n fd es rest w in_table found fresh some_blocks wn fits h =
      let (fd', loaded, flow) = load_blocks-bytes es n rest fd wn fits h in
      let (fs, table) = functions_of m f_id fd found in
      let nonzero : (m.nb_functions == 0) ≡ false = ground arith in
      let below : leb m.nb_functions f_id ≡ false = ground arith in
      let unloaded : (fd.nb_blocks == 0) ≡ true = ground arith in
      let counted : (n == 0) ≡ false = ground arith in
      let flow_bytes = u32_bytes (length es) ++ entries_bytes es rest in
      (
        fd',
        rw
            (
              load_section_block_transition,
              table,
              nonzero,
              read_u32-bytes f_id (u32_bytes n ++ flow_bytes) (omega arith),
              ◌>>=◌,
              below,
              found,
              ◌>>=◌,
              unloaded,
              read_u32-bytes n flow_bytes wn,
              ◌>>=◌,
              counted,
              loaded,
              ◌>>=◌,
            )
            (rw (put_function, table) refl),
        flow,
      )
