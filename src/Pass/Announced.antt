-- ===== src/Pass/Announced.antt =====
-- llvm_pass/CFI/CFIInjector.cpp: the calls that the code announces to the monitor.
use picon.Base.{
  ℕ, ◌+◌, ◌≡◌, refl, ◌∙◌, sym, ap, Bool, false, not, ◌&&◌, ◌||◌, ◌==◌, List, [], ◌∷◌, ◌++◌, Option,
  none, some, Option-cases, or_false, Bool-cases, inl, inr, arith,
}
use picon.Injected.{Event, cfi_exit, cfi_call, cfi_before_br}
use picon.Pass.{
  Instruction, CfiFct, Cfi, is_declaration, is_ignored_blocks_function, get_identifier,
}
use picon.Pass.Inject.{
  Code, kept, inserted, InjectedBlock, flush, inject_call, inject_instructions, inject_mcall,
  inject_bb_enter, inject_bb_leave, inject_mentry, inject_mexit, inject_blocks, inject_function,
}

-- Whether some code announces a call of the function `j`.
abbrev pub announces : ℕ → Code → Bool
announces j (kept i) = false
announces j (inserted (cfi_call k)) = k == j
announces j (inserted _) = false

abbrev pub calls_in : ℕ → List Code → Bool
calls_in j [] = false
calls_in j (c ∷ code) = announces j c || calls_in j code

abbrev pub block_calls : ℕ → List InjectedBlock → Bool
block_calls j [] = false
block_calls j (b ∷ bs) = calls_in j b.code || block_calls j bs

-- Whether a function with the id `i` announces a call of `j`.
abbrev pub program_calls : ℕ → ℕ → List (ℕ × List InjectedBlock) → Bool
program_calls i j [] = false
program_calls i j ((id, bs) ∷ rest) = ((id == i) && block_calls j bs) || program_calls i j rest

pub calls_in-flush :
    (j : ℕ) (after : Option ℕ) (code : List Code)
    → calls_in j (flush after ++ code) ≡ calls_in j code
calls_in-flush j none code = refl
calls_in-flush j (some id) code = refl

-- The code of some instructions starts with what is left of the last call and with the first one's.
pub first_injected :
    (cfi : Cfi) (ins : Instruction) (is : List Instruction) (after : Option ℕ) (code : List Code)
    → inject_instructions cfi (ins ∷ is) after ≡ some code
    → (own : List Code) × (after' : Option ℕ) × (rest : List Code) × (inject_call cfi ins
        ≡ some (own, after'))
      × (inject_instructions cfi is after' ≡ some rest)
      × (code ≡ flush after ++ (own ++ rest))
unfolding inject_instructions
first_injected cfi ins is after code h = elim (Option-cases (inject_call cfi ins)) [
  | inl n ↦ absurd (ground arith)
  | inr ((own, after'), first) ↦ elim (Option-cases (inject_instructions cfi is after')) [
    | inl n ↦ absurd (ground arith)
    | inr (rest, others) ↦ (own, after', rest, first, others, ground arith)
  ]
]

-- An instruction that is no call the monitor sees: a call of an intrinsic or of a function that is
-- ignored, inline assembly, or another one.
abbrev pub Silent : Cfi → Instruction → Type 0
Silent cfi ins = inject_call cfi ins ≡ some (kept ins ∷ [], none)

module _ (j : ℕ) where
  pub calls_in-Silent :
      (cfi : Cfi) (ins : Instruction) (is : List Instruction) (after : Option ℕ) (code : List Code)
      → Silent cfi ins
      → inject_instructions cfi (ins ∷ is) after ≡ some code
      → (rest : List Code) × (inject_instructions cfi is none ≡ some rest)
        × (calls_in j code ≡ calls_in j rest)
  calls_in-Silent cfi ins is after code s k =
      let (own, after', rest, first, others, same) = first_injected cfi ins is after code k in
      let (q, q') : (own ≡ kept ins ∷ []) × (after' ≡ none) = (ground arith, ground arith) in
      (
        rest,
        rw (sym q') others,
        ap (calls_in j) same
            ∙ (calls_in-flush j after (own ++ rest) ∙ ap (λ o. calls_in j (o ++ rest)) q),
      )

  -- A call that the monitor sees.
  pub calls_in-call :
      (cfi : Cfi) (ins : Instruction) (id : ℕ) (is : List Instruction) (after : Option ℕ)
      (code : List Code)
      → inject_call cfi ins ≡ some (inserted (cfi_call id) ∷ kept ins ∷ [], some id)
      → inject_instructions cfi (ins ∷ is) after ≡ some code
      → (rest : List Code) × (inject_instructions cfi is (some id) ≡ some rest)
        × (calls_in j code ≡ ((id == j) || calls_in j rest))
  calls_in-call cfi ins id is after code s k =
      let (own, after', rest, first, others, same) = first_injected cfi ins is after code k in
      let (q, q') : (own ≡ inserted (cfi_call id) ∷ kept ins ∷ []) × (after' ≡ some id) =
        (ground arith, ground arith) in
      (
        rest,
        rw (sym q') others,
        ap (calls_in j) same
            ∙ (calls_in-flush j after (own ++ rest) ∙ ap (λ o. calls_in j (o ++ rest)) q),
      )

-- What is put in besides announces no call.
calls_in-append :
    (j : ℕ) (code : List Code) (e : Event)
    → announces j (inserted e) ≡ false
    → calls_in j (code ++ inserted e ∷ []) ≡ calls_in j code
calls_in-append j [] e h = or_false (announces j (inserted e)) ∙ h
calls_in-append j (c ∷ code) e h = rw (calls_in-append j code e h)

block_calls-inject_bb_enter :
    (j f k : ℕ) (bs : List InjectedBlock)
    → block_calls j (inject_bb_enter f k bs) ≡ block_calls j bs
unfolding inject_bb_enter
block_calls-inject_bb_enter j f k [] = refl
block_calls-inject_bb_enter j f k (b ∷ bs) = elim (Bool-cases (k == 0)) [
  | inl z ↦ rw (z, block_calls-inject_bb_enter j f (k + 1) bs)
  | inr z ↦ rw (z, block_calls-inject_bb_enter j f (k + 1) bs)
]

block_calls-inject_bb_leave :
    (j f k : ℕ) (bs : List InjectedBlock)
    → block_calls j (inject_bb_leave f k bs) ≡ block_calls j bs
unfolding inject_bb_leave
block_calls-inject_bb_leave j f k [] = refl
block_calls-inject_bb_leave j f k (b ∷ []) = refl
block_calls-inject_bb_leave j f k (b ∷ c ∷ bs) = rw (
  calls_in-append j b.code (cfi_before_br f k) refl,
  block_calls-inject_bb_leave j f (k + 1) (c ∷ bs),
)

block_calls-inject_mentry :
    (j id : ℕ) (bs : List InjectedBlock) → block_calls j (inject_mentry id bs) ≡ block_calls j bs
unfolding inject_mentry
block_calls-inject_mentry j id [] = refl
block_calls-inject_mentry j id (b ∷ bs) = refl

block_calls-inject_mexit :
    (j id : ℕ) (bs : List InjectedBlock) → block_calls j (inject_mexit id bs) ≡ block_calls j bs
unfolding inject_mexit
block_calls-inject_mexit j id [] = refl
block_calls-inject_mexit j id (b ∷ []) = rw (calls_in-append j b.code (cfi_exit id) refl)
block_calls-inject_mexit j id (b ∷ c ∷ bs) =
    ap (λ x. calls_in j b.code || x) (block_calls-inject_mexit j id (c ∷ bs))

block_calls-inject_blocks :
    (j : ℕ) (cfi : Cfi) (basic_block : Bool) (c : CfiFct) (bs code : List InjectedBlock)
    → inject_blocks cfi basic_block c.fun bs ≡ some code
    → block_calls j code ≡ block_calls j bs
unfolding inject_blocks
block_calls-inject_blocks j cfi basic_block c bs code h =
    elim (Bool-cases (basic_block && not (is_ignored_blocks_function cfi c.fun.name))) [
      | inr off ↦ let same : code ≡ bs = ground arith in ap (block_calls j) same
      | inl on ↦ elim (Option-cases (get_identifier cfi c.fun.name)) [
        | inl n ↦ absurd (ground arith)
        | inr (id, i) ↦
            let same : code ≡ inject_bb_leave id 0 (inject_bb_enter id 0 bs) = ground arith in
            ap (block_calls j) same
            ∙ (block_calls-inject_bb_leave j id 0 (inject_bb_enter id 0 bs)
                ∙ block_calls-inject_bb_enter j id 0 bs)
      ]
    ]

-- A function announces the calls that `injectMcall` puts in.
pub block_calls-inject_function :
    (j : ℕ) (cfi : Cfi) (basic_block : Bool) (c : CfiFct) (code : List InjectedBlock)
    → inject_function cfi basic_block c ≡ some code
    → (bs : List InjectedBlock) × (inject_mcall cfi c.fun.blocks ≡ some bs)
      × (block_calls j code ≡ block_calls j bs)
unfolding inject_function
block_calls-inject_function j cfi basic_block c code h =
    elim (Option-cases (inject_mcall cfi c.fun.blocks)) [
      | inl n ↦ absurd (ground arith)
      | inr (bs, q) ↦ elim (Bool-cases (is_declaration c.fun)) [
        | inl d ↦ let same : code ≡ bs = ground arith in (bs, q, ap (block_calls j) same)
        | inr d ↦ elim (Option-cases (inject_blocks cfi basic_block c.fun bs)) [
          | inl n ↦ absurd (ground arith)
          | inr (bs', q') ↦
              let same : code ≡ inject_mexit c.id (inject_mentry c.id bs') = ground arith in
              (
                bs,
                q,
                ap (block_calls j) same
                    ∙ (block_calls-inject_mexit j c.id (inject_mentry c.id bs')
                        ∙ (block_calls-inject_mentry j c.id bs'
                            ∙ block_calls-inject_blocks j cfi basic_block c bs bs' q')),
              )
        ]
      ]
    ]
