-- ===== src/Pass/CallsListed.antt =====
-- llvm_pass/CFI/CFI.cpp, `writeCallgraph`, and llvm_pass/CFI/CFIInjector.cpp, `injectMcall`: the
-- calls that the file lists, and those that the code announces to the monitor.
use picon.Base.{
  ℕ, ◌≡◌, refl, ◌∙◌, sym, ap, Bool, true, false, ◌&&◌, ◌||◌, ◌==◌, ltb, List, [], ◌∷◌, ◌++◌, Option,
  none, some, Option-cases, or_left_comm, or_assoc, or_and_false, collected, gather, and_or_or,
  or_false, Bool-cases, inl, inr, arith,
}
use picon.Load.Rows.{Entry, occurs, listed}
use picon.Pass.{
  Instruction, invoke, inline_asm, indirect_call, other, direct_call, Block, CfiFct, Cfi,
  is_ignored_function, get_identifier,
}
use picon.Pass.Files.{
  insert_id, add_transition, collect_calls, collect_block_calls, collect_functions, write_callgraph,
}
use picon.Pass.Inject.{
  Code, InjectedBlock, flush, inject_call, inject_instructions, inject_mcall, inject_function,
  inject_code,
}
use picon.Pass.Announced.{
  calls_in, block_calls, program_calls, calls_in-flush, calls_in-Silent, calls_in-call,
  block_calls-inject_function,
}

occurs-insert_id :
    (j n : ℕ) (ids : List ℕ) → occurs j (insert_id n ids) ≡ ((n == j) || occurs j ids)
unfolding insert_id
occurs-insert_id j n [] = refl
occurs-insert_id j n (x ∷ xs) = elim (Bool-cases (n == x)) [
  | inl same ↦ ground arith
  | inr apart ↦ elim (Bool-cases (ltb n x)) [
    | inl below ↦ ground arith
    | inr above ↦ ground (arith, occurs-insert_id j n xs)
  ]
]

listed-add_transition :
    (a b i j : ℕ) (es : List Entry)
    → listed (add_transition a b es) i j ≡ (((a == i) && (b == j)) || listed es i j)
unfolding add_transition
listed-add_transition a b i j [] = ap (λ x. ((a == i) && x) || false) (or_false (b == j))
listed-add_transition a b i j (e ∷ es) = elim (Bool-cases (a == e.source)) [
  | inl same ↦
      let q : a ≡ e.source = ground arith in
      let new : Entry = record { source = e.source; targets = insert_id b e.targets } in
      let put : add_transition a b (e ∷ es) ≡ new ∷ es = ground arith in
      ap (λ l. listed l i j) put
      ∙ rw (occurs-insert_id j b e.targets, q)
          (and_or_or (e.source == i) (b == j) (occurs j e.targets) (listed es i j))
  | inr apart ↦ elim (Bool-cases (ltb a e.source)) [
    | inl below ↦
        let put : add_transition a b (e ∷ es) ≡ record { source = a; targets = b ∷ [] } ∷ e ∷ es =
          ground arith in
        ap (λ l. listed l i j) put
        ∙ ap (λ x. ((a == i) && x) || listed (e ∷ es) i j) (or_false (b == j))
    | inr above ↦
        let put : add_transition a b (e ∷ es) ≡ e ∷ add_transition a b es = ground arith in
        ap (λ l. listed l i j) put
        ∙ rw (listed-add_transition a b i j es) (
            or_left_comm ((e.source == i) && occurs j e.targets) ((a == i) && (b == j))
              (listed es i j))
  ]
]

module _ (i j : ℕ) where
  -- The calls of some instructions: the map gets what the code announces.
  listed-collect_calls :
      (cfi : Cfi) (a : ℕ) (is : List Instruction) (after : Option ℕ) (code : List Code)
      (allowed allowed' : List Entry)
      → collect_calls cfi a is allowed ≡ some allowed'
      → inject_instructions cfi is after ≡ some code
      → listed allowed' i j ≡ (listed allowed i j || ((a == i) && calls_in j code))
  unfolding collect_calls inject_instructions inject_call
  listed-collect_calls cfi a [] after code allowed allowed' h k =
      let same : code ≡ flush after ++ [] = ground arith in
      let kept_all : allowed' ≡ allowed = ground arith in
      rw (same, kept_all, calls_in-flush j after [])
        (sym (or_and_false (listed allowed i j) (a == i)))
  listed-collect_calls cfi a (invoke ∷ is) after code allowed allowed' h k = absurd (ground arith)
  listed-collect_calls cfi a (indirect_call ∷ is) after code allowed allowed' h k =
      absurd (ground arith)
  listed-collect_calls cfi a (inline_asm ∷ is) after code allowed allowed' h k =
      let (rest, others, same) = calls_in-Silent j cfi inline_asm is after code refl k in
      rw same (listed-collect_calls cfi a is none rest allowed allowed' h others)
  listed-collect_calls cfi a (other ∷ is) after code allowed allowed' h k =
      let (rest, others, same) = calls_in-Silent j cfi other is after code refl k in
      rw same (listed-collect_calls cfi a is none rest allowed allowed' h others)
  listed-collect_calls cfi a (direct_call callee true ∷ is) after code allowed allowed' h k =
      let (rest, others, same) =
        calls_in-Silent j cfi (direct_call callee true) is after code refl k in
      let h' : collect_calls cfi a is allowed ≡ some allowed' =
        elim (Bool-cases (is_ignored_function cfi callee)) [
          | inl b ↦ ground arith
          | inr b ↦ ground arith
        ] in
      rw same (listed-collect_calls cfi a is none rest allowed allowed' h' others)
  listed-collect_calls cfi a (direct_call callee false ∷ is) after code allowed allowed' h k =
      elim (Bool-cases (is_ignored_function cfi callee)) [
        | inl ignored ↦
            let (rest, others, same) =
              calls_in-Silent j cfi (direct_call callee false) is after code (ground arith) k in
            rw same (listed-collect_calls cfi a is none rest allowed allowed' (ground arith) others)
        | inr seen ↦ elim (Option-cases (get_identifier cfi callee)) [
          | inl n ↦ absurd (ground arith)
          | inr (id, known) ↦
              let (rest, others, same) =
                calls_in-call j cfi (direct_call callee false) id is after code (ground arith) k in
              rw same (
                listed-collect_calls cfi a is (some id) rest (add_transition a id allowed) allowed'
                  (ground arith) others
                ∙ (ap (λ x. x || ((a == i) && calls_in j rest))
                      (listed-add_transition a id i j allowed)
                    ∙ gather (a == i) (id == j) (calls_in j rest) (listed allowed i j)))
        ]
      ]

  -- The same of the blocks of a function.
  listed-collect_block_calls :
      (cfi : Cfi) (a : ℕ) (bs : List Block) (code : List InjectedBlock)
      (allowed allowed' : List Entry)
      → collect_block_calls cfi a bs allowed ≡ some allowed'
      → inject_mcall cfi bs ≡ some code
      → listed allowed' i j ≡ (listed allowed i j || ((a == i) && block_calls j code))
  unfolding collect_block_calls inject_mcall
  listed-collect_block_calls cfi a [] code allowed allowed' h k =
      let none_left : code ≡ [] = ground arith in
      let kept_all : allowed' ≡ allowed = ground arith in
      rw (none_left, kept_all) (sym (or_and_false (listed allowed i j) (a == i)))
  listed-collect_block_calls cfi a (b ∷ bs) code allowed allowed' h k =
      elim (Option-cases (collect_calls cfi a b.body allowed)) [
        | inl n ↦ absurd (ground arith)
        | inr (allowed₁, q) ↦ elim (Option-cases (inject_instructions cfi b.body none)) [
          | inl n ↦ absurd (ground arith)
          | inr (own, first) ↦ elim (Option-cases (inject_mcall cfi bs)) [
            | inl n ↦ absurd (ground arith)
            | inr (rest, others) ↦
                let whole : InjectedBlock = record {
                  phis = b.phis;
                  code = own;
                  successors = b.successors;
                } in
                let same : code ≡ whole ∷ rest = ground arith in
                rw same (
                  listed-collect_block_calls cfi a bs rest allowed₁ allowed' (ground arith) others
                  ∙ rw (listed-collect_calls cfi a b.body none own allowed allowed₁ q first) (
                      collected (listed allowed i j) (a == i) (calls_in j own)
                        (block_calls j rest)))
          ]
        ]
      ]

listed-collect_functions :
    (i j : ℕ) (cfi : Cfi) (basic_block : Bool) (cs : List CfiFct)
    (code : List (ℕ × List InjectedBlock)) (allowed allowed' : List Entry)
    → collect_functions cfi cs allowed ≡ some allowed'
    → inject_code cfi basic_block cs ≡ some code
    → listed allowed' i j ≡ (listed allowed i j || program_calls i j code)
unfolding collect_functions inject_code
listed-collect_functions i j cfi basic_block [] code allowed allowed' h k =
    let none_left : code ≡ [] = ground arith in
    let kept_all : allowed' ≡ allowed = ground arith in
    rw (none_left, kept_all) (sym (or_false (listed allowed i j)))
listed-collect_functions i j cfi basic_block (c ∷ cs) code allowed allowed' h k =
    elim (Option-cases (collect_block_calls cfi c.id c.fun.blocks allowed)) [
      | inl n ↦ absurd (ground arith)
      | inr (allowed₁, q) ↦ elim (Option-cases (inject_function cfi basic_block c)) [
        | inl n ↦ absurd (ground arith)
        | inr (own, first) ↦ elim (Option-cases (inject_code cfi basic_block cs)) [
          | inl n ↦ absurd (ground arith)
          | inr (rest, others) ↦
              let (bs, calls, same_calls) =
                block_calls-inject_function j cfi basic_block c own first in
              let same : code ≡ (c.id, own) ∷ rest = ground arith in
              rw (same, same_calls)
                (listed-collect_functions i j cfi basic_block cs rest allowed₁ allowed'
                    (ground arith) others
                  ∙ rw
                      (listed-collect_block_calls i j cfi c.id c.fun.blocks bs allowed allowed₁ q
                        calls)
                      (or_assoc (listed allowed i j) ((c.id == i) && block_calls j bs)
                        (program_calls i j rest)))
        ]
      ]
    ]

-- Where the pass writes a call graph and puts its calls into the code, the graph lists a call of
-- `j` by `i` just when some function with the id `i` announces a call of `j` in that code.
pub listed-write_callgraph :
    (cfi : Cfi) (basic_block : Bool) (map : List Entry) (code : List (ℕ × List InjectedBlock))
    (i j : ℕ)
    → write_callgraph cfi ≡ some map
    → inject_code cfi basic_block cfi.function_map ≡ some code
    → listed map i j ≡ program_calls i j code
unfolding write_callgraph
listed-write_callgraph cfi basic_block map code i j h k =
    listed-collect_functions i j cfi basic_block cfi.function_map code [] map h k
