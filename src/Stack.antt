-- ===== src/Stack.antt =====
-- monitor/src/block_stack.c, monitor/src/call_stack.c and their headers: a growing array with three
-- pointers into it. The two files are one text up to the type of an element and the growth step, so
-- they are modelled once; `CallStack` and `BlockStack` fix the two.
--
-- A pointer is a number that counts elements, and NULL is 0. The block that `first` was last given
-- is the list `cells`, at the address `base`; an access outside that block is a fault, `none`.
-- `calloc` and `realloc` are parameters: their answer is the address of a block, or `none`.
pub mod Laws
pub mod Moved
use picon.Base.{
  ℕ, ◌+◌, ◌-◌, ◌^◌, Bool, true, false, ◌&&◌, List, [], ◌∷◌, ◌++◌, length, get_elem?, set, replicate,
  zero, suc, ltb, leb, ◌==◌, if◌then◌else◌, Option, none, some,
}

-- `block_stack` and `call_stack`, with the memory that they point into.
pub record Stack {ℓ} (A : Type ℓ) : Type ℓ where
  pub base : ℕ
  pub cells : List A
  pub first : ℕ
  pub last : ℕ
  pub top : ℕ

-- The `-1` of a failed allocation, once it is in the `unsigned int` of the caller.
abbrev pub minus_one : ℕ
minus_one = 2 ^ 32 - 1

module _ {ℓ} {A : Type ℓ} where
  -- `*ptr`
  abbrev pub load : Stack A → ℕ → Option A
  load s ptr = if leb s.base ptr then get_elem? s.cells (ptr - s.base) else none

  -- `*ptr = v`
  abbrev pub store : Stack A → ℕ → A → Option (Stack A)
  store s ptr v =
      if leb s.base ptr && ltb (ptr - s.base) (length s.cells)
      then some (record s { cells = set s.cells (ptr - s.base) v })
      else none

  -- `BLOCK_STACK_IS_EMPTY`, `CALL_STACK_IS_EMPTY`
  abbrev pub is_empty : Stack A → Bool
  is_empty s = ltb s.top s.first

  -- `BLOCK_STACK_RESTORE_TOP`
  abbrev pub restore_top : Stack A → ℕ → Stack A
  restore_top s t = record s { top = t }

  -- `BLOCK_STACK_POP`, `CALL_STACK_POP`
  unfoldable pub pop : Stack A → Option (A × Stack A)
  pop s = elim (load s s.top) [ none ↦ none | some v ↦ some (v, record s { top = s.top - 1 }) ]

  -- The loop of `block_stack_trace` and `call_stack_trace`, from `ptr` down to `first`; `n` is the
  -- number of rounds, `ptr + 1 - first`.
  trace_from : Stack A → ℕ → ℕ → Option (List A)
  trace_from s zero ptr = some []
  trace_from s (suc n) ptr =
      let rest = trace_from s n (ptr - 1) in
      elim (load s ptr) [
        | none ↦ none
        | some v ↦ elim rest [ none ↦ none | some vs ↦ some (v ∷ vs) ]
      ]

  -- `block_stack_trace`, `call_stack_trace`: what they print, top first.
  unfoldable pub trace : Stack A → Option (List A)
  unfolding trace_from
  trace s = if is_empty s then some [] else trace_from s (s.top + 1 - s.first) s.top

  -- `block_stack_free`, `call_stack_free`: the block is given back.
  unfoldable pub free : Stack A → Stack A
  free s = if s.first == 0 then s else record { base = 0; cells = []; first = 0; last = 0; top = 0 }

  module _ (extend_size : ℕ) (blank : A) where
    -- `block_stack_init`, `call_stack_init`, given the answer of `calloc`; `blank` is a cell of
    -- zero bytes.
    unfoldable pub init : Option ℕ → Option (Stack A)
    init none = none
    init (some b) = some (record {
      base = b;
      cells = replicate extend_size blank;
      first = b;
      last = b + (extend_size - 1);
      top = b - 1;
    })

    -- The cells of a block of `msize` that `realloc` answers with: the old ones are copied, and new
    -- ones hold anything, here `blank`. Where `first` is NULL `realloc` only allocates.
    unfoldable pub regrow : Stack A → ℕ → List A
    regrow s msize =
        if s.first == 0
        then replicate msize blank
        else s.cells ++ replicate (msize - length s.cells) blank

    module _ (realloc : ℕ → ℕ → Option ℕ) where
      -- `block_stack_extend`, `call_stack_extend`, with the value returned. On failure `first` is
      -- overwritten by NULL, and only that; on success `top` is left alone.
      unfoldable pub extend : Stack A → ℕ × Stack A
      extend s =
          let msize = s.last + 1 - s.first + extend_size in
          elim (realloc s.first msize) [
            | none ↦ (minus_one, record s { first = 0 })
            | some b ↦ (
              0,
              record s { base = b; cells = regrow s msize; first = b; last = b + (msize - 1) },
            )
          ]

      -- The second half of a push: the element is written if `err` is 0.
      unfoldable pub write : A → ℕ × Stack A → Option (ℕ × Stack A)
      write v (err, s) = elim (err == 0) [
        | false ↦ some (err, s)
        | true ↦ elim (store s (s.top + 1) v) [
          | none ↦ none
          | some s' ↦ some (err, record s' { top = s.top + 1 })
        ]
      ]

      -- `BLOCK_STACK_PUSH(s,v,err)`, `CALL_STACK_PUSH(s,v,err)`: an extension overwrites `err`.
      unfoldable pub push : A → ℕ × Stack A → Option (ℕ × Stack A)
      push v (err, s) = write v (elim (leb s.last s.top) [ true ↦ extend s | false ↦ (err, s) ])
