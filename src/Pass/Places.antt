-- ===== src/Pass/Places.antt =====
-- llvm_pass/CFI/CFIInjector.cpp: one block of a function after each of the injections.
use picon.Base.{
  ℕ, zero, suc, ◌+◌, ◌≡◌, refl, sym, ap, false, ◌==◌, List, [], ◌∷◌, none, some, Option-cases,
  Bool-cases, inl, inr, arith, length, get_elem?, if◌then◌else◌,
}
use picon.Injected.{cfi_enter, cfi_exit, cfi_before_br, cfi_after_br}
use picon.Pass.{Block, Cfi}
use picon.Pass.Inject.{
  Code, InjectedBlock, inject_instructions, inject_mcall, prepend, append, inject_bb_enter,
  inject_bb_leave, inject_mentry, inject_mexit,
}

-- A block with the calls of its function, as `injectMcall` leaves it.
abbrev pub with_calls : Block → List Code → InjectedBlock
with_calls b mid = record { phis = b.phis; code = mid; successors = b.successors }

pub inject_mcall_at :
    (cfi : Cfi) (bs : List Block) (code : List InjectedBlock) (k : ℕ) (b : Block)
    → inject_mcall cfi bs ≡ some code
    → get_elem? bs k ≡ some b
    → (mid : List Code) × (inject_instructions cfi b.body none ≡ some mid)
      × (get_elem? code k ≡ some (with_calls b mid))
unfolding inject_mcall
inject_mcall_at cfi [] code k b h q = absurd (ground arith)
inject_mcall_at cfi (x ∷ xs) code k b h q =
    elim (Option-cases (inject_instructions cfi x.body none)) [
      | inl n ↦ absurd (ground arith)
      | inr (own, first) ↦ elim (Option-cases (inject_mcall cfi xs)) [
        | inl n ↦ absurd (ground arith)
        | inr (rest, others) ↦
            let same : code ≡ with_calls x own ∷ rest = ground arith in
            elim k
                as (λ k.
                  get_elem? (x ∷ xs) k ≡ some b
                  → (mid : List Code) × (inject_instructions cfi b.body none ≡ some mid)
                    × (get_elem? code k ≡ some (with_calls b mid))) [
                      | zero ↦ λ q.
                          let here : x ≡ b = ground arith in
                          (own, rw (sym here) first, rw (same, here) refl)
                      | suc k ↦ λ q.
                          let (mid, p, r) = inject_mcall_at cfi xs rest k b others q in
                          (mid, p, rw same r)
                    ]
              q
      ]
    ]

pub length-inject_mcall :
    (cfi : Cfi) (bs : List Block) (code : List InjectedBlock)
    → inject_mcall cfi bs ≡ some code
    → length code ≡ length bs
unfolding inject_mcall
length-inject_mcall cfi [] code h = let same : code ≡ [] = ground arith in rw same refl
length-inject_mcall cfi (x ∷ xs) code h =
    elim (Option-cases (inject_instructions cfi x.body none)) [
      | inl n ↦ absurd (ground arith)
      | inr (own, first) ↦ elim (Option-cases (inject_mcall cfi xs)) [
        | inl n ↦ absurd (ground arith)
        | inr (rest, others) ↦
            let same : code ≡ with_calls x own ∷ rest = ground arith in
            rw same (ap suc (length-inject_mcall cfi xs rest others))
      ]
    ]

-- The block `k` after `injectBBEnter`, from the id `s` on.
pub inject_bb_enter_at :
    (f s k : ℕ) (bs : List InjectedBlock) (b : InjectedBlock)
    → get_elem? bs k ≡ some b
    → get_elem? (inject_bb_enter f s bs) k
      ≡ some (if s + k == 0 then b else prepend (cfi_after_br f (s + k)) b)
unfolding inject_bb_enter
inject_bb_enter_at f s k [] b h = absurd (ground arith)
inject_bb_enter_at f s zero (x ∷ xs) b h =
    let here : x ≡ b = ground arith in
    let same : s + 0 ≡ s = omega arith in
    elim (Bool-cases (s == 0)) [ inl z ↦ rw (same, ← here, z) | inr z ↦ rw (same, ← here, z) ]
inject_bb_enter_at f s (suc k) (x ∷ xs) b h =
    let same : (s + 1) + k ≡ s + suc k = omega arith in
    rw (sym same) (inject_bb_enter_at f (s + 1) k xs b h)

-- After `injectBBLeave`.
pub inject_bb_leave_at :
    (f s k : ℕ) (bs : List InjectedBlock) (b : InjectedBlock)
    → get_elem? bs k ≡ some b
    → get_elem? (inject_bb_leave f s bs) k
      ≡ some (if k + 1 == length bs then b else append (cfi_before_br f (s + k)) b)
unfolding inject_bb_leave
inject_bb_leave_at f s k [] b h = absurd (ground arith)
inject_bb_leave_at f s zero (x ∷ []) b h = ground arith
inject_bb_leave_at f s (suc k) (x ∷ []) b h = absurd (ground arith)
inject_bb_leave_at f s zero (x ∷ y ∷ xs) b h =
    let here : x ≡ b = ground arith in
    let same : s + 0 ≡ s = omega arith in
    let more : (1 == suc (suc (length xs))) ≡ false = ground arith in rw (same, here, more)
inject_bb_leave_at f s (suc k) (x ∷ y ∷ xs) b h =
    let same : (s + 1) + k ≡ s + suc k = omega arith in
    let last : (suc k + 1 == suc (suc (length xs))) ≡ (k + 1 == suc (length xs)) = ground arith in
    rw (sym same, last) (inject_bb_leave_at f (s + 1) k (y ∷ xs) b h)

pub length-inject_bb_enter :
    (f s : ℕ) (bs : List InjectedBlock) → length (inject_bb_enter f s bs) ≡ length bs
unfolding inject_bb_enter
length-inject_bb_enter f s [] = refl
length-inject_bb_enter f s (b ∷ bs) = ap suc (length-inject_bb_enter f (s + 1) bs)

pub length-inject_bb_leave :
    (f s : ℕ) (bs : List InjectedBlock) → length (inject_bb_leave f s bs) ≡ length bs
unfolding inject_bb_leave
length-inject_bb_leave f s [] = refl
length-inject_bb_leave f s (b ∷ []) = refl
length-inject_bb_leave f s (b ∷ c ∷ bs) = ap suc (length-inject_bb_leave f (s + 1) (c ∷ bs))

pub length-inject_mentry :
    (f : ℕ) (bs : List InjectedBlock) → length (inject_mentry f bs) ≡ length bs
unfolding inject_mentry
length-inject_mentry f [] = refl
length-inject_mentry f (b ∷ bs) = refl

-- After `injectMentry`, and after `injectMexit`.
pub inject_mentry_at :
    (f k : ℕ) (bs : List InjectedBlock) (b : InjectedBlock)
    → get_elem? bs k ≡ some b
    → get_elem? (inject_mentry f bs) k ≡ some (if k == 0 then prepend (cfi_enter f) b else b)
unfolding inject_mentry
inject_mentry_at f k [] b h = absurd (ground arith)
inject_mentry_at f zero (x ∷ xs) b h = ground arith
inject_mentry_at f (suc k) (x ∷ xs) b h =
    let later : (suc k == 0) ≡ false = ground arith in rw later h

pub inject_mexit_at :
    (f k : ℕ) (bs : List InjectedBlock) (b : InjectedBlock)
    → get_elem? bs k ≡ some b
    → get_elem? (inject_mexit f bs) k
      ≡ some (if k + 1 == length bs then append (cfi_exit f) b else b)
unfolding inject_mexit
inject_mexit_at f k [] b h = absurd (ground arith)
inject_mexit_at f zero (x ∷ []) b h = ground arith
inject_mexit_at f (suc k) (x ∷ []) b h = absurd (ground arith)
inject_mexit_at f zero (x ∷ y ∷ xs) b h =
    let here : x ≡ b = ground arith in
    let more : (1 == suc (suc (length xs))) ≡ false = ground arith in rw (here, more)
inject_mexit_at f (suc k) (x ∷ y ∷ xs) b h =
    let last : (suc k + 1 == suc (suc (length xs))) ≡ (k + 1 == suc (length xs)) = ground arith in
    rw last (inject_mexit_at f k (y ∷ xs) b h)
