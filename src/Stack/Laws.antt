-- ===== src/Stack/Laws.antt =====
-- The stacks while their block stays where it is: what `push`, `pop` and the pointers mean.
use picon.Base.{
  ℕ, ◌+◌, ◌-◌, ◌≤◌, ◌<◌, ◌≡◌, refl, ◌∙◌, List, ◌++◌, length, get_elem?, set, replicate, length-set,
  length-append, length-replicate, get_elem?-set_self, get_elem?-set_ne, ◌==◌, Option, some, arith,
  zero, suc, [], ◌∷◌, leb, Bool-cases, inl, inr, true,
}
use picon.Stack.{Stack, load, init, regrow, extend, write, push, pop, is_empty}

-- Every `realloc` succeeds, and grows the block where it stands.
abbrev pub InPlace : (ℕ → ℕ → Option ℕ) → Type 0
InPlace realloc = (old n : ℕ) → realloc old n ≡ some old

module _ {ℓ} {A : Type ℓ} where
  -- The pointers of a stack agree with its block: `last` is its last cell, and `top` one of its
  -- cells or the address before them.
  pub record IsValid (s : Stack A) : Type ℓ where
    pub not_null : 1 ≤ s.base
    pub first_is_base : s.first ≡ s.base
    pub last_is_end : s.last + 1 ≡ s.base + length s.cells
    pub top_above : s.base ≤ s.top + 1
    pub top_below : s.top ≤ s.last

  -- What a push of `v` on `s` leaves.
  pub record Pushed (s : Stack A) (v : A) (s' : Stack A) : Type ℓ where
    pub valid : IsValid s'
    pub base_same : s'.base ≡ s.base
    pub top_up : s'.top ≡ s.top + 1
    pub on_top : load s' (s.top + 1) ≡ some v
    pub below_same : (ptr : ℕ) → ptr ≤ s.top → load s' ptr ≡ load s ptr

  get_elem?-append :
      (xs ys : List A) (i : ℕ) → i < length xs → get_elem? (xs ++ ys) i ≡ get_elem? xs i
  get_elem?-append [] ys i h = absurd (omega arith)
  get_elem?-append (x ∷ xs) ys zero h = refl
  get_elem?-append (x ∷ xs) ys (suc i) h = get_elem?-append xs ys i (omega arith)

  -- A store at the address after `top` leaves a stack with one more element.
  pub write_top-Pushed :
      (s : Stack A) (v : A)
      → IsValid s
      → s.top < s.last
      → Pushed s v (record s { cells = set s.cells (s.top + 1 - s.base) v; top = s.top + 1 })
  write_top-Pushed s v h room = record {
    valid = omega (arith, length-set s.cells (s.top + 1 - s.base) v);
    base_same = refl;
    top_up = refl;
    on_top = ground (arith, get_elem?-set_self s.cells (s.top + 1 - s.base) v);
    below_same = λ ptr le. below ptr le;
  }
    where
      below :
          (ptr : ℕ)
          → ptr ≤ s.top
          → load (record s { cells = set s.cells (s.top + 1 - s.base) v; top = s.top + 1 }) ptr
            ≡ load s ptr
      below ptr le =
          ground (arith, get_elem?-set_ne s.cells {i = s.top + 1 - s.base} {j = ptr - s.base} v)

  -- A stack grown in place.
  abbrev grown : Stack A → ℕ → A → Stack A
  grown s n blank = record s { cells = s.cells ++ replicate n blank; last = s.last + n }

  grown-IsValid : (s : Stack A) (n : ℕ) (blank : A) → IsValid s → IsValid (grown s n blank)
  grown-IsValid s n blank h = omega (
    arith,
    length-append s.cells (replicate n blank),
    length-replicate n blank,
    h.not_null,
    h.first_is_base,
    h.last_is_end,
    h.top_above,
    h.top_below,
  )

  grown-load :
      (s : Stack A) (n : ℕ) (blank : A)
      → IsValid s
      → (ptr : ℕ) → ptr ≤ s.top
      → load (grown s n blank) ptr ≡ load s ptr
  grown-load s n blank h ptr le =
      ground (arith, get_elem?-append s.cells (replicate n blank) (ptr - s.base))

  module _ (extend_size : ℕ) (blank : A) where
    shrink-Pushed :
        (v : A) (s s' : Stack A)
        → IsValid s
        → Pushed (grown s extend_size blank) v s'
        → Pushed s v s'
    shrink-Pushed v s s' h p = record {
      valid = p.valid;
      base_same = p.base_same;
      top_up = p.top_up;
      on_top = p.on_top;
      below_same = λ ptr le. p.below_same ptr le ∙ grown-load s extend_size blank h ptr le;
    }

    pub regrow-append :
        (s : Stack A)
        → IsValid s
        → regrow extend_size blank s (s.last + 1 - s.first + extend_size)
          ≡ s.cells ++ replicate extend_size blank
    unfolding regrow
    regrow-append s h =
        let n : s.last + 1 - s.first + extend_size - length s.cells ≡ extend_size =
          omega (arith, h.first_is_base, h.last_is_end, h.top_above, h.top_below) in
        elim (Bool-cases (s.first == 0)) [
          | inl null ↦ absurd (ground (arith, h.not_null, h.first_is_base))
          | inr live ↦ rw (live, n)
        ]

    module _ (pos : 1 ≤ extend_size) (realloc : ℕ → ℕ → Option ℕ) (place : InPlace realloc) where
      extend-grown :
          (s : Stack A)
          → IsValid s
          → extend extend_size blank realloc s ≡ (0, grown s extend_size blank)
      unfolding extend
      extend-grown s h =
          ground (arith, place s.first (s.last + 1 - s.first + extend_size), regrow-append s h)

      write-Pushed :
          (v : A) (s : Stack A)
          → IsValid s
          → s.top < s.last
          → (s' : Stack A) × (write extend_size blank realloc v (0, s) ≡ some (0, s'))
            × Pushed s v s'
      unfolding write
      write-Pushed v s h room = (
        record s { cells = set s.cells (s.top + 1 - s.base) v; top = s.top + 1 },
        ground arith,
        write_top-Pushed s v h room,
      )

      -- A push on a stack that does not move succeeds, with the error variable at 0: it leaves a
      -- valid stack with the element on top and all below it as it was.
      pub push-Pushed :
          (v : A) (s : Stack A)
          → IsValid s
          → (s' : Stack A) × (push extend_size blank realloc v (0, s) ≡ some (0, s'))
            × Pushed s v s'
      unfolding push
      push-Pushed v s h = elim (Bool-cases (leb s.last s.top)) [
        | inl full ↦
            let (s', e, p) =
              write-Pushed v (grown s extend_size blank) (grown-IsValid s extend_size blank h)
                (omega (arith, h.top_below)) in
            (s', rw (full, extend-grown s h) e, shrink-Pushed v s s' h p)
        | inr room ↦ rw room (write-Pushed v s h (ground arith))
      ]

  -- What a pop of a valid stack that holds something does.
  pub pop-load :
      (s : Stack A) (v : A) → load s s.top ≡ some v → pop s ≡ some (v, record s { top = s.top - 1 })
  unfolding pop
  pop-load s v e = rw (e, pop)

  -- The pointers may be moved down to any of the cells below `top`, or to the address before them.
  pub lower-IsValid :
      (s : Stack A) (t : ℕ)
      → IsValid s
      → s.base ≤ t + 1
      → t ≤ s.top
      → IsValid (record s { top = t })
  lower-IsValid s t h lo hi = omega (arith, h.not_null, h.first_is_base, h.last_is_end, h.top_below)

  get_elem?-lt : (xs : List A) (i : ℕ) → i < length xs → (v : A) × (get_elem? xs i ≡ some v)
  get_elem?-lt [] i h = absurd (omega arith)
  get_elem?-lt (x ∷ xs) zero h = (x, refl)
  get_elem?-lt (x ∷ xs) (suc i) h = get_elem?-lt xs i (omega arith)

  -- Every cell from `first` to `top` can be read.
  pub load_total :
      (s : Stack A) (ptr : ℕ)
      → IsValid s
      → s.base ≤ ptr
      → ptr ≤ s.top
      → (v : A) × (load s ptr ≡ some v)
  load_total s ptr h lo hi =
      let (v, e) =
        get_elem?-lt s.cells (ptr - s.base) (omega (arith, h.last_is_end, h.top_below)) in
      (v, ground arith)

  -- `calloc` succeeding, a new stack is valid and empty.
  pub init-IsValid :
      (extend_size : ℕ) (blank : A) (b : ℕ)
      → 1 ≤ extend_size
      → 1 ≤ b
      → (s : Stack A) × (init extend_size blank (some b) ≡ some s)
        × IsValid s
        × (is_empty s ≡ true)
        × (s.base ≡ s.top + 1)
  unfolding init
  init-IsValid extend_size blank b pos live = (
    record {
      base = b;
      cells = replicate extend_size blank;
      first = b;
      last = b + (extend_size - 1);
      top = b - 1;
    },
    refl,
    omega (arith, length-replicate extend_size blank),
    ground arith,
    omega arith,
  )

  -- On a valid stack whose block does not move, a push succeeds, and a pop after it returns the
  -- pushed element and leaves a valid stack with the old top and the old cells up to there.
  pub pop-push :
      (extend_size : ℕ) (blank : A) (realloc : ℕ → ℕ → Option ℕ) (v : A) (s : Stack A)
      → 1 ≤ extend_size
      → InPlace realloc
      → IsValid s
      → (s₁ s₂ : Stack A) × (push extend_size blank realloc v (0, s) ≡ some (0, s₁))
        × (pop s₁ ≡ some (v, s₂))
        × IsValid s₂
        × (s₂.top ≡ s.top)
        × ((ptr : ℕ) → ptr ≤ s.top → load s₂ ptr ≡ load s ptr)
  pop-push extend_size blank realloc v s pos place h =
      let (s₁, e, p) = push-Pushed extend_size blank pos realloc place v s h in
      let up : s.top + 1 ≡ s₁.top = omega (arith, p.top_up) in
      (
        s₁,
        record s₁ { top = s₁.top - 1 },
        e,
        pop-load s₁ v (rw up at p.on_top),
        lower-IsValid s₁ (s₁.top - 1) p.valid (omega (arith, p.top_up, p.base_same, h.top_above))
            (omega arith),
        omega (arith, p.top_up),
        p.below_same,
      )
