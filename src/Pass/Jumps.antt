-- ===== src/Pass/Jumps.antt =====
-- llvm_pass/CFI/CFI.cpp, `writeAllowedBBTrans`: the jumps that are listed.
use picon.Base.{
  ℕ, zero, suc, ◌+◌, ◌<◌, ◌⊎◌, ◌≡◌, refl, ◌∙◌, sym, ap, Bool, true, false, not, ◌||◌, ◌&&◌, ◌==◌,
  List, [], ◌∷◌, Bool-cases, inl, inr, arith, or_false, length,
}
use picon.Load.Rows.{occurs, listed}
use picon.Pass.{Block, Function, CfiFct, Cfi, contains}
use picon.Pass.Files.{write_blocks, FunctionBlocks, skips_blocks, write_allowed_bb_trans}

-- Whether the block `k` goes to the block `j`.
abbrev pub goes : List Block → ℕ → ℕ → Bool
goes [] k j = false
goes (b ∷ bs) zero j = occurs j b.successors
goes (b ∷ bs) (suc k) j = goes bs k j

List-cases : (l : List ℕ) → (l ≡ []) ⊎ ((x : ℕ) × (xs : List ℕ) × (l ≡ x ∷ xs))
List-cases [] = inl refl
List-cases (x ∷ xs) = inr (x, xs, refl)

and_false_or : (a b : Bool) → ((a && false) || b) ≡ b
and_false_or true b = refl
and_false_or false b = refl

-- The line of a block lists its successors, also where there is none.
first_line :
    (s i j : ℕ) (b : Block) (bs : List Block)
    → listed (write_blocks s (b ∷ bs)) i j
      ≡ (((s == i) && occurs j b.successors) || listed (write_blocks (s + 1) bs) i j)
unfolding write_blocks
first_line s i j b bs = elim (List-cases b.successors) [
  | inl e ↦
      let q : write_blocks s (b ∷ bs) ≡ write_blocks (s + 1) bs = ground arith in
      rw (q, e) (sym (and_false_or (s == i) (listed (write_blocks (s + 1) bs) i j)))
  | inr (x, xs, e) ↦
      let q : write_blocks s (b ∷ bs)
          ≡ record { source = s; targets = b.successors } ∷ write_blocks (s + 1) bs =
        ground arith in
      rw q refl
]

earlier_unlisted : (s i j : ℕ) (bs : List Block) → i < s → listed (write_blocks s bs) i j ≡ false
unfolding write_blocks
earlier_unlisted s i j [] h = refl
earlier_unlisted s i j (b ∷ bs) h =
    let apart : (s == i) ≡ false = ground arith in
    first_line s i j b bs ∙ rw apart (earlier_unlisted (s + 1) i j bs (omega (arith, h)))

listed_from : (s k j : ℕ) (bs : List Block) → listed (write_blocks s bs) (s + k) j ≡ goes bs k j
unfolding write_blocks
listed_from s k j [] = refl
listed_from s zero j (b ∷ bs) =
    let same : (s == s + 0) ≡ true = ground arith in
    first_line s (s + 0) j b bs
    ∙ rw (same, earlier_unlisted (s + 1) (s + 0) j bs (omega arith))
        (or_false (occurs j b.successors))
listed_from s (suc k) j (b ∷ bs) =
    let apart : (s == s + suc k) ≡ false = ground arith in
    let same : (s + 1) + k ≡ s + suc k = omega arith in
    first_line s (s + suc k) j b bs ∙ rw (apart, sym same) (listed_from (s + 1) k j bs)

-- Whether a function with the id `i` and `n` blocks is written with a jump from `k` to `j`.
abbrev pub jumps_listed : List FunctionBlocks → ℕ → ℕ → ℕ → ℕ → Bool
jumps_listed [] i n k j = false
jumps_listed (f ∷ fs) i n k j =
    ((f.fct_id == i) && ((f.num_bb == n) && listed f.transitions k j)) || jumps_listed fs i n k j

-- Whether some function of the map has the id `i` and `n` blocks, is a definition, is not among the
-- functions to ignore nor among those whose blocks are to be ignored, and goes from `k` to `j`; the
-- jumps of a function of one block, to itself, do not count.
abbrev pub program_jumps : Cfi → List CfiFct → ℕ → ℕ → ℕ → ℕ → Bool
program_jumps cfi [] i n k j = false
program_jumps cfi (c ∷ cs) i n k j =
    ((not (contains cfi.ignored_functions c.fun.name)
        && (not (contains cfi.ignored_blocks_functions c.fun.name)
            && not (length c.fun.blocks == 0)))
      && ((c.id == i) && ((length c.fun.blocks == n) && (not (n == 1) && goes c.fun.blocks k j))))
    || program_jumps cfi cs i n k j

written_blocks :
    (i n k j : ℕ) (c : CfiFct)
    → ((c.id == i)
        && ((length c.fun.blocks == n)
            && listed
                (elim (length c.fun.blocks == 1) [
                  | true ↦ []
                  | false ↦ write_blocks 0 c.fun.blocks
                ])
                k
                j))
      ≡ ((c.id == i) && ((length c.fun.blocks == n) && (not (n == 1) && goes c.fun.blocks k j)))
written_blocks i n k j c = elim (Bool-cases (length c.fun.blocks == n)) [
  | inr other ↦ rw other refl
  | inl same ↦
      let count : length c.fun.blocks ≡ n = ground arith in
      elim (Bool-cases (n == 1)) [
        | inl one ↦ rw (count, one) refl
        | inr many ↦
            let jumps : listed (write_blocks 0 c.fun.blocks) k j ≡ goes c.fun.blocks k j =
              let start : 0 + k ≡ k = omega arith in
              ap (λ x. listed (write_blocks 0 c.fun.blocks) x j) (sym start)
              ∙ listed_from 0 k j c.fun.blocks in
            rw (count, many, jumps) refl
      ]
]

-- Not to be skipped is to be a definition, and to be in neither set.
defined : (bs : List Block) → not (elim bs [ [] ↦ true | _ ↦ false ]) ≡ not (length bs == 0)
defined [] = refl
defined (b ∷ bs) = ground arith

pub skips_blocks-cases :
    (cfi : Cfi) (f : Function)
    → not (skips_blocks cfi f) ≡ (
        not (contains cfi.ignored_functions f.name)
        && (not (contains cfi.ignored_blocks_functions f.name) && not (length f.blocks == 0)))
skips_blocks-cases cfi f = elim (Bool-cases (contains cfi.ignored_functions f.name)) [
  | inl k ↦ rw k refl
  | inr k ↦ elim (Bool-cases (contains cfi.ignored_blocks_functions f.name)) [
    | inl b ↦ rw (k, b) refl
    | inr b ↦ rw (k, b) (defined f.blocks)
  ]
]

-- The file of basic blocks lists a function with its number of blocks and with a jump just when
-- the map has a function with that id and that number of blocks, other than one, whose block goes
-- to the other; it is neither ignored, nor are its blocks, nor is it a declaration.
pub jumps_listed-write_allowed_bb_trans :
    (cfi : Cfi) (cs : List CfiFct) (i n k j : ℕ)
    → jumps_listed (write_allowed_bb_trans cfi cs) i n k j ≡ program_jumps cfi cs i n k j
unfolding write_allowed_bb_trans
jumps_listed-write_allowed_bb_trans cfi [] i n k j = refl
jumps_listed-write_allowed_bb_trans cfi (c ∷ cs) i n k j =
    elim (Bool-cases (skips_blocks cfi c.fun)) [
      | inl skipped ↦
          let q : write_allowed_bb_trans cfi (c ∷ cs) ≡ write_allowed_bb_trans cfi cs =
            ground arith in
          let out = sym (skips_blocks-cases cfi c.fun) ∙ ap not skipped in
          rw (q, out) (jumps_listed-write_allowed_bb_trans cfi cs i n k j)
      | inr seen ↦
          let own : FunctionBlocks = record {
            fct_id = c.id;
            num_bb = length c.fun.blocks;
            transitions = elim (length c.fun.blocks == 1) [
              | true ↦ []
              | false ↦ write_blocks 0 c.fun.blocks
            ];
          } in
          let q : write_allowed_bb_trans cfi (c ∷ cs) ≡ own ∷ write_allowed_bb_trans cfi cs =
            ground arith in
          let in_file = sym (skips_blocks-cases cfi c.fun) ∙ ap not seen in
          rw (
            q,
            in_file,
            written_blocks i n k j c,
            jumps_listed-write_allowed_bb_trans cfi cs i n k j,
          )
    ]
