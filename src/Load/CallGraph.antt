-- ===== src/Load/CallGraph.antt =====
-- monitor/src/monitor_load.c: `load_section_function_transition` on the bytes of some entries.
use picon.Base.{
  ℕ, zero, suc, ◌+◌, ◌^◌, ◌≤◌, ◌<◌, ◌≡◌, ◌≢◌, refl, ◌∙◌, ap, Bool, true, false, ◌==◌, leb, List, [],
  ◌∷◌, ◌++◌, Option, none, some, length, get_elem?, set, replicate, arith, length-replicate,
  get_elem?-set_ne,
}
use picon.Tables.{ModuleData, Matrix}
use picon.Load.Cursor.{◌>>=◌, u32_bytes, read_u32-bytes}
use picon.Load.Transitions.{load_calls, load_section_function_transition}
use picon.Load.Rows.{
  Entry, ids_bytes, entries_bytes, AreEntries, listed, allows, mark, put_rows, replicate-RowsOf,
  replicate-allows, fill_row-bytes, allows-put_rows,
}

-- No entry is about `i`; the entries are about different ids.
abbrev pub Absent : ℕ → List Entry → Type 0
Absent i [] = Unit {0}
Absent i (e ∷ es) = (i ≢ e.source) × Absent i es

abbrev pub AreDistinct : List Entry → Type 0
AreDistinct [] = Unit {0}
AreDistinct (e ∷ es) = Absent e.source es × AreDistinct es

-- The rows of the entries are NULL.
abbrev AreNull : List (Option (List ℕ)) → List Entry → Type 0
AreNull rows [] = Unit {0}
AreNull rows (e ∷ es) = (get_elem? rows e.source ≡ some none) × AreNull rows es

set-AreNull :
    (rows : List (Option (List ℕ))) (i : ℕ) (row : Option (List ℕ)) (es : List Entry)
    → Absent i es
    → AreNull rows es
    → AreNull (set rows i row) es
set-AreNull rows i row [] a h = h
set-AreNull rows i row (e ∷ es) a h =
    (get_elem?-set_ne rows row a.0 ∙ h.0, set-AreNull rows i row es a.1 h.1)

replicate-none :
    (n i : ℕ) → i < n → get_elem? (replicate {A = Option (List ℕ)} n none) i ≡ some none
replicate-none zero i h = absurd (omega arith)
replicate-none (suc n) zero h = refl
replicate-none (suc n) (suc i) h = replicate-none n i (omega arith)

replicate-AreNull : (n : ℕ) (es : List Entry) → AreEntries n es → AreNull (replicate n none) es
replicate-AreNull n [] h = h
replicate-AreNull n (e ∷ es) h = (replicate-none n e.source h.0, replicate-AreNull n es h.3)

module _ (alloc : ℕ → Bool) (allocates : (k : ℕ) → alloc k ≡ true) where
  load_calls-bytes :
      (es : List Entry) (k : ℕ) (rest : List ℕ) (m : ModuleData) (rows : List (Option (List ℕ)))
      → m.nb_functions ≤ 2 ^ 32
      → m.call_graph ≡ some rows
      → AreEntries m.nb_functions es
      → AreDistinct es
      → AreNull rows es
      → load_calls alloc (length es) k (entries_bytes es rest) m
        ≡ some (0, record m { call_graph = some (put_rows m.nb_functions rows es) })
  unfolding load_calls
  load_calls-bytes [] k rest m rows w g h d z = ap (λ p. some (0, record m { call_graph = p })) g
  load_calls-bytes (e ∷ es) k rest m rows w g h d z =
      let n = m.nb_functions in
      let after = entries_bytes es rest in
      let below : leb n e.source ≡ false = ground (arith, h.0) in
      let null : get_elem? rows e.source ≡ some none = z.0 in
      let row = some (mark (replicate n 0) e.targets) in
      let m' = record m { call_graph = some (set rows e.source row) } in
      rw
        (
          read_u32-bytes e.source (u32_bytes (length e.targets) ++ ids_bytes e.targets after)
              (omega (arith, w, h.0)),
          ◌>>=◌,
          below,
          g,
          null,
          ◌>>=◌,
          allocates k,
          read_u32-bytes (length e.targets) (ids_bytes e.targets after) h.1,
          ◌>>=◌,
          fill_row-bytes 3 n e.targets after (replicate n 0) w h.2,
          ◌>>=◌,
          g,
        )
        (load_calls-bytes es (k + 1) rest m' (set rows e.source row) w refl h.3 d.1
          (set-AreNull rows e.source row es d.0 z.1))

  -- The section of a module lists its calls: when the call graph is fresh, the ids are below the
  -- count of functions, no caller is listed twice and no allocation fails, the section is loaded,
  -- and the call graph then allows the calls that are listed and no others.
  pub call_graph_exact :
      (m : ModuleData) (es : List Entry) (rest : List ℕ)
      → 1 ≤ m.nb_functions
      → m.nb_functions ≤ 2 ^ 32
      → m.call_graph ≡ some (replicate m.nb_functions none)
      → length es < 2 ^ 32
      → AreEntries m.nb_functions es
      → AreDistinct es
      → (p : Matrix) × (load_section_function_transition alloc
            (u32_bytes (length es) ++ entries_bytes es rest)
            m
          ≡ some (0, record m { call_graph = p }))
        × ((caller callee : ℕ) → allows p caller callee ≡ listed es caller callee)
  unfolding load_section_function_transition
  call_graph_exact m es rest some_functions w g fits h d =
      let n = m.nb_functions in
      let rows : List (Option (List ℕ)) = replicate n none in
      let nonzero : (n == 0) ≡ false = ground arith in
      (
        some (put_rows n rows es),
        rw
            (
              load_section_function_transition,
              g,
              nonzero,
              read_u32-bytes (length es) (entries_bytes es rest) fits,
              ◌>>=◌,
            )
            (load_calls-bytes es 0 rest m rows w g h d (replicate-AreNull n es h)),
        λ caller callee.
            allows-put_rows n rows es caller callee (length-replicate n none) (replicate-RowsOf n n)
              h
            ∙ rw (replicate-allows n caller callee) refl,
      )
