-- ===== src/Load/WholeSections.antt =====
-- monitor/src/monitor_load.c: each loader of a section keeps the arrays as long as they are
-- counted, whatever its packet holds, if its allocations succeed.
use picon.Base.{
  ℕ, zero, suc, ◌+◌, ◌≡◌, sym, Bool, true, ◌==◌, leb, List, replicate, length-replicate, none, some,
  arith, Bool-cases, Option-cases, inl, inr,
}
use picon.Tables.{ModuleData, at}
use picon.Load.Cursor.{read_u32, read_name}
use picon.Load.Functions.{zero_function, set_function, load_functions, load_section_function_id}
use picon.Load.Transitions.{fill_row, set_row, load_calls, load_section_function_transition}
use picon.Load.Whole.{
  Spans, AllAt, IsWholeFunction, IsWholeModule, set_row-Spans, set_function-IsWholeModule,
}
use picon.Load.FunctionTable.{allocate_module_lem}

module _ (alloc : ℕ → Bool) (allocates : (k : ℕ) → alloc k ≡ true) where
  load_functions-IsWholeModule :
      (rounds k : ℕ) (ptr : List ℕ) (m m' : ModuleData) (c : ℕ)
      → load_functions alloc rounds k ptr m ≡ some (c, m')
      → IsWholeModule m
      → IsWholeModule m'
  unfolding load_functions
  load_functions-IsWholeModule zero k ptr m m' c h w =
      let same : m ≡ m' = ground arith in rw (sym same) w
  load_functions-IsWholeModule (suc rounds) k ptr m m' c h w = elim (Option-cases (read_u32 ptr)) [
    | inl e ↦ absurd (ground arith)
    | inr ((id, r₁), e) ↦ elim (Bool-cases (leb m.nb_functions id)) [
      | inl b ↦ let same : m ≡ m' = ground arith in rw (sym same) w
      | inr b ↦ elim (Option-cases (read_u32 r₁)) [
        | inl f ↦ absurd (ground arith)
        | inr ((flags, r₂), f) ↦ elim (Option-cases (read_name r₂)) [
          | inl g ↦ absurd (ground arith)
          | inr ((name, r₃), g) ↦
              let fd = record zero_function { name = some name; flags = flags } in
              load_functions-IsWholeModule rounds (k + 1) r₃ (set_function m id fd) m' c
                (ground (arith, allocates k)) (set_function-IsWholeModule m id fd (omega arith) w)
        ]
      ]
    ]
  ]

  replicate-Spans {ℓ} : {A : Type ℓ} (n : ℕ) (a : A) → Spans n (some (replicate n a))
  replicate-Spans n a = omega (arith, length-replicate n a)

  replicate-AllAt : (n : ℕ) → AllAt IsWholeFunction (some (replicate n zero_function))
  replicate-AllAt zero = tt
  replicate-AllAt (suc n) = (omega arith, replicate-AllAt n)

  pub load_section_function_id-IsWholeModule :
      (value : List ℕ) (m m' : ModuleData) (c : ℕ)
      → load_section_function_id alloc value m ≡ some (c, m')
      → IsWholeModule m
      → IsWholeModule m'
  unfolding load_section_function_id
  load_section_function_id-IsWholeModule value m m' c h w =
      elim (Bool-cases (m.nb_functions == 0)) [
        | inr b ↦ let same : m ≡ m' = ground arith in rw (sym same) w
        | inl b ↦ elim (Option-cases (read_u32 value)) [
          | inl e ↦ absurd (ground arith)
          | inr ((n, rest), e) ↦
              let start = record m {
                nb_functions = n;
                call_graph = some (replicate n none);
                relocations = some (replicate n 0);
                functions = some (replicate n zero_function);
              } in
              let next : load_functions alloc n 3 rest start ≡ some (c, m') =
                ground (arith, allocate_module_lem alloc allocates n m) in
              load_functions-IsWholeModule n 3 rest start m' c next (record {
                calls_span = replicate-Spans n none;
                relocations_span = replicate-Spans n 0;
                functions_span = replicate-Spans n zero_function;
                functions_whole = replicate-AllAt n;
              })
        ]
      ]

  -- The call graph with another row.
  set_row-IsWholeModule :
      (m : ModuleData) (i : ℕ) (row : List ℕ)
      → IsWholeModule m
      → IsWholeModule (record m { call_graph = set_row m.call_graph i row })
  set_row-IsWholeModule m i row w = record {
    calls_span = set_row-Spans m.nb_functions m.call_graph i row w.calls_span;
    relocations_span = w.relocations_span;
    functions_span = w.functions_span;
    functions_whole = w.functions_whole;
  }

  load_calls-IsWholeModule :
      (rounds k : ℕ) (ptr : List ℕ) (m m' : ModuleData) (c : ℕ)
      → load_calls alloc rounds k ptr m ≡ some (c, m')
      → IsWholeModule m
      → IsWholeModule m'
  unfolding load_calls
  load_calls-IsWholeModule zero k ptr m m' c h w =
      let same : m ≡ m' = ground arith in rw (sym same) w
  load_calls-IsWholeModule (suc rounds) k ptr m m' c h w = elim (Option-cases (read_u32 ptr)) [
    | inl e ↦ absurd (ground arith)
    | inr ((id, r₁), e) ↦ elim (Bool-cases (leb m.nb_functions id)) [
      | inl b ↦ let same : m ≡ m' = ground arith in rw (sym same) w
      | inr b ↦ elim (Option-cases (at m.call_graph id)) [
        | inl f ↦ absurd (ground arith)
        | inr (some old, f) ↦ let same : m ≡ m' = ground arith in rw (sym same) w
        | inr (none, f) ↦ elim (Option-cases (read_u32 r₁)) [
          | inl g ↦ absurd (ground (arith, allocates k))
          | inr ((num, r₂), g) ↦
              let row = fill_row 3 m.nb_functions num r₂ (replicate m.nb_functions 0) in
              elim (Option-cases row) [
                | inl r ↦ absurd (ground (arith, allocates k))
                | inr (filled, r) ↦
                    let next = record m { call_graph = set_row m.call_graph id filled.row } in
                    let w' = set_row-IsWholeModule m id filled.row w in
                    elim (Bool-cases (filled.code == 0)) [
                      | inr z ↦
                          let same : next ≡ m' = ground (arith, allocates k) in rw (sym same) w'
                      | inl z ↦
                          load_calls-IsWholeModule rounds (k + 1) filled.rest next m' c
                            (ground (arith, allocates k)) w'
                    ]
              ]
        ]
      ]
    ]
  ]

  pub load_section_function_transition-IsWholeModule :
      (value : List ℕ) (m m' : ModuleData) (c : ℕ)
      → load_section_function_transition alloc value m ≡ some (c, m')
      → IsWholeModule m
      → IsWholeModule m'
  unfolding load_section_function_transition
  load_section_function_transition-IsWholeModule value m m' c h w =
      elim (Option-cases m.call_graph) [
        | inl g ↦ let same : m ≡ m' = ground arith in rw (sym same) w
        | inr (rows, g) ↦ elim (Bool-cases (m.nb_functions == 0)) [
          | inl b ↦ let same : m ≡ m' = ground arith in rw (sym same) w
          | inr b ↦ elim (Option-cases (read_u32 value)) [
            | inl e ↦ absurd (ground arith)
            | inr ((num, rest), e) ↦ load_calls-IsWholeModule num 0 rest m m' c (ground arith) w
          ]
        ]
      ]
