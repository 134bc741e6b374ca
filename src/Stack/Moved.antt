-- ===== src/Stack/Moved.antt =====
-- The stacks where `realloc` moves the block: `extend` updates `first` and `last`, but not `top`.
use picon.Base.{
  ℕ, ◌+◌, ◌-◌, ◌≤◌, ◌<◌, ◌≡◌, ◌⊎◌, length, length-append, length-replicate, Option, none, some,
  arith, replicate, ◌∙◌, ap,
}
use picon.Stack.{Stack, regrow, extend, write, push}
use picon.Stack.Laws.{IsValid, regrow-append}

module _ {ℓ} {A : Type ℓ} (extend_size : ℕ) (blank : A) (realloc : ℕ → ℕ → Option ℕ) where
  -- A push on a valid full stack writes outside its block whenever `realloc` succeeds by moving the
  -- block to a place that does not hold the address after the old `top`.
  pub push_faults_when_moved :
      (v : A) (s : Stack A) (b : ℕ)
      → IsValid s
      → s.top ≡ s.last
      → realloc s.first (s.last + 1 - s.first + extend_size) ≡ some b
      → (s.top + 1 < b) ⊎ (b + length s.cells + extend_size ≤ s.top + 1)
      → push extend_size blank realloc v (0, s) ≡ none
  unfolding push extend write
  push_faults_when_moved v s b h full moved away =
      let n : length (regrow extend_size blank s (s.last + 1 - s.first + extend_size))
          ≡ length s.cells + extend_size =
        ap length (regrow-append extend_size blank s h)
        ∙ (length-append s.cells (replicate extend_size blank)
            ∙ ap (λ k. length s.cells + k) (length-replicate extend_size blank)) in
      ground (arith, n)
