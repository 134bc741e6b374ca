-- ===== src/Pass/PostdomLaws.antt =====
-- llvm_pass/CFI/CFI.cpp, `writeIPDOMToFile`: the blocks that are written.
use picon.Base.{
  ℕ, zero, suc, ◌+◌, ◌-◌, ◌≡◌, refl, ◌∙◌, sym, ap, ◌⊎◌, List, [], ◌∷◌, Option, none, some, length,
  get_elem?, Bool-cases, Option-cases, inl, inr, arith,
}
use mathlib.Core.Path.{subst}
use picon.Pass.{Block, Function, Cfi, get_identifier}
use picon.Pass.Postdom.{IpdLine, ends_in_invoke, common, post_dominator, write_ipds}

-- What LLVM says of `findNearestCommonDominator` on the post-dominator tree of a function: the
-- block that it returns post-dominates both blocks, and every block that post-dominates both
-- post-dominates it; it returns NULL only where no block does. A block post-dominates itself, and
-- what post-dominates a post-dominator of a block post-dominates the block.
pub record IsPostdomTree (nearest : ℕ → ℕ → Option ℕ) (PostDominates : ℕ → ℕ → Type 0)
    : Type 0 where
  pub common_left : (a b d : ℕ) → nearest a b ≡ some d → PostDominates d a
  pub common_right : (a b d : ℕ) → nearest a b ≡ some d → PostDominates d b
  pub nearest_one :
      (a b d x : ℕ)
      → nearest a b ≡ some d
      → PostDominates x a
      → PostDominates x b
      → PostDominates x d
  pub found : (a b x : ℕ) → nearest a b ≡ none → PostDominates x a → ¬ PostDominates x b
  pub itself : (a : ℕ) → PostDominates a a
  pub transitive : (a b c : ℕ) → PostDominates a b → PostDominates b c → PostDominates a c

module _ (PostDominates : ℕ → ℕ → Type 0) where
  -- A block post-dominates each of some blocks.
  abbrev pub PostDominatesAll : ℕ → List ℕ → Type 0
  PostDominatesAll d [] = Unit {0}
  PostDominatesAll d (s ∷ ss) = PostDominates d s × PostDominatesAll d ss

  -- A block post-dominates each of some blocks, and any other that does post-dominates it.
  pub record IsNearest (ss : List ℕ) (d : ℕ) : Type 0 where
    pub all : PostDominatesAll d ss
    pub least : (x : ℕ) → PostDominatesAll x ss → PostDominates x d

  -- What is to be written for a block with these successors: the nearest block that post-dominates
  -- them all; where there are none, or no such block, 0.
  abbrev pub IsIpd : List ℕ → ℕ → Type 0
  IsIpd [] d = d ≡ 0
  IsIpd (s ∷ ss) d = IsNearest (s ∷ ss) d ⊎ ((d ≡ 0) × ((x : ℕ) → ¬ PostDominatesAll x (s ∷ ss)))

module _ (nearest : ℕ → ℕ → Option ℕ) (PostDominates : ℕ → ℕ → Type 0)
    (tree : IsPostdomTree nearest PostDominates) where
  common-IsNearest :
      (p : ℕ) (ss : List ℕ) (d : ℕ)
      → common nearest p ss ≡ some d
      → IsNearest PostDominates (p ∷ ss) d
  unfolding common
  common-IsNearest p [] d h =
      let same : p ≡ d = ground arith in
      subst (IsNearest PostDominates (p ∷ [])) same
        (record { all = (tree.itself p, tt); least = λ x q. q.0 })
  common-IsNearest p (s ∷ ss) d h = elim (Option-cases (nearest p s)) [
    | inl n ↦ absurd (ground arith)
    | inr (c, q) ↦
        let later = common-IsNearest c ss d (ground arith) in
        record {
          all = (
            tree.transitive d c p later.all.0 (tree.common_left p s c q),
            (tree.transitive d c s later.all.0 (tree.common_right p s c q), later.all.1),
          );
          least = λ x r. later.least x (tree.nearest_one p s c x q r.0 r.1.0, r.1.1);
        }
  ]

  common-none :
      (p : ℕ) (ss : List ℕ) (x : ℕ)
      → common nearest p ss ≡ none
      → ¬ PostDominatesAll PostDominates x (p ∷ ss)
  unfolding common
  common-none p [] x h r = absurd (ground arith)
  common-none p (s ∷ ss) x h r = elim (Option-cases (nearest p s)) [
    | inl n ↦ tree.found p s x n r.0 r.1.0
    | inr (c, q) ↦ common-none c ss x (ground arith) (tree.nearest_one p s c x q r.0 r.1.0, r.1.1)
  ]

  -- The number that stands for the block, or for NULL.
  number : Option ℕ → ℕ
  number none = 0
  number (some d) = d

  post_dominator-IsIpd : (ss : List ℕ) → IsIpd PostDominates ss (number (post_dominator nearest ss))
  unfolding post_dominator number
  post_dominator-IsIpd [] = refl
  post_dominator-IsIpd (s ∷ ss) = elim (Option-cases (common nearest s ss)) [
    | inl n ↦ inr (ap number n, λ x. common-none s ss x n)
    | inr (d, q) ↦
        inl
          (subst (IsNearest PostDominates (s ∷ ss)) (sym (ap number q)) (common-IsNearest s ss d q))
  ]

  -- The line of the block `k` of a function with the id `id`.
  line_of : Function → ℕ → ℕ → Block → IpdLine
  line_of f id k b = record {
    fct_id = id;
    block_id = k;
    ipd = elim (post_dominator nearest b.successors) [ none ↦ 0 | some d ↦ d ];
    last_block = length f.blocks - 1;
  }

  write_ipds-parts :
      (cfi : Cfi) (f : Function) (k : ℕ) (b : Block) (bs : List Block) (lines : List IpdLine)
      → write_ipds nearest cfi f k (b ∷ bs) ≡ some lines
      → (id : ℕ) × (rest : List IpdLine) × (get_identifier cfi f.name ≡ some id)
        × (write_ipds nearest cfi f (k + 1) bs ≡ some rest)
        × (lines ≡ line_of f id k b ∷ rest)
  unfolding write_ipds line_of
  write_ipds-parts cfi f k b bs lines h = elim (Bool-cases (ends_in_invoke b.body)) [
    | inl e ↦ absurd (ground arith)
    | inr e ↦ elim (Option-cases (get_identifier cfi f.name)) [
      | inl n ↦ absurd (ground arith)
      | inr (id, q) ↦ elim (Option-cases (write_ipds nearest cfi f (k + 1) bs)) [
        | inl n ↦ absurd (ground arith)
        | inr (rest, r) ↦ (id, rest, q, r, ground arith)
      ]
    ]
  ]

  -- What a line says.
  record IsLineOf (cfi : Cfi) (f : Function) (k : ℕ) (b : Block) (line : IpdLine) : Type 0 where
    named : get_identifier cfi f.name ≡ some line.fct_id
    place : line.block_id ≡ k
    ends : line.last_block ≡ length f.blocks - 1
    is_ipd : IsIpd PostDominates b.successors line.ipd

  line_of-IsLineOf :
      (cfi : Cfi) (f : Function) (id k : ℕ) (b : Block)
      → get_identifier cfi f.name ≡ some id
      → IsLineOf cfi f k b (line_of f id k b)
  unfolding line_of number
  line_of-IsLineOf cfi f id k b q = record {
    named = q;
    place = refl;
    ends = refl;
    is_ipd = post_dominator-IsIpd b.successors;
  }

  write_ipds_from :
      (cfi : Cfi) (f : Function) (start k : ℕ) (bs : List Block) (lines : List IpdLine) (b : Block)
      → write_ipds nearest cfi f start bs ≡ some lines
      → get_elem? bs k ≡ some b
      → (line : IpdLine) × (get_elem? lines k ≡ some line) × IsLineOf cfi f (start + k) b line
  write_ipds_from cfi f start k [] lines b h q = absurd (ground arith)
  write_ipds_from cfi f start zero (x ∷ xs) lines b h q =
      let (id, rest, named, more, e) = write_ipds-parts cfi f start x xs lines h in
      let same : x ≡ b = ground arith in
      let here : start ≡ start + 0 = omega arith in
      (
        line_of f id start x,
        ap (λ l. get_elem? l 0) e,
        subst (λ n. IsLineOf cfi f n b (line_of f id start x)) here
            (subst (λ y. IsLineOf cfi f start y (line_of f id start x)) same
              (line_of-IsLineOf cfi f id start x named)),
      )
  write_ipds_from cfi f start (suc k) (x ∷ xs) lines b h q =
      let (id, rest, named, more, e) = write_ipds-parts cfi f start x xs lines h in
      let (line, at, is_line) = write_ipds_from cfi f (start + 1) k xs rest b more (ground arith) in
      let there : (start + 1) + k ≡ start + suc k = omega arith in
      (
        line,
        ap (λ l. get_elem? l (suc k)) e ∙ at,
        subst (λ n. IsLineOf cfi f n b line) there is_line,
      )

  module _ (cfi : Cfi) (f : Function) (lines : List IpdLine)
      (written : write_ipds nearest cfi f 0 f.blocks ≡ some lines) where
    -- Let the nearest common post-dominator that LLVM finds of two blocks be one that every
    -- common one post-dominates, let it be found where there is a common one, and let
    -- post-dominance be reflexive and transitive. When the lines of the immediate post-dominators
    -- of a function are written, its block `k` has the line `k`, with the id of the function, the
    -- place of the block, the last block of the function, and the block that post-dominates all
    -- successors and that every other such block post-dominates; where the block has no
    -- successors, or they have no such block, it has 0 there.
    pub write_ipds-PostDominates :
        (k : ℕ) (b : Block)
        → get_elem? f.blocks k ≡ some b
        → (line : IpdLine) × (get_elem? lines k ≡ some line)
          × (get_identifier cfi f.name ≡ some line.fct_id)
          × (line.block_id ≡ k)
          × (line.last_block ≡ length f.blocks - 1)
          × IsIpd PostDominates b.successors line.ipd
    write_ipds-PostDominates k b at =
        let (line, here, is_line) = write_ipds_from cfi f 0 k f.blocks lines b written at in
        let place = is_line.place in
        (line, here, is_line.named, omega (arith, place), is_line.ends, is_line.is_ipd)
