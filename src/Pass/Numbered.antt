-- ===== src/Pass/Numbered.antt =====
-- llvm_pass/CFI/CFI.cpp, `IdentifyFunctions`: the identifiers that functions get.
use picon.Base.{
  ℕ, ◌+◌, ◌%◌, ◌^◌, ◌<◌, ◌≤◌, ◌≡◌, refl, ◌∙◌, sym, true, false, ◌==◌, ◌||◌, List, [], ◌∷◌, none,
  some, length, Option-cases, Bool-cases, inl, inr, arith,
}
use picon.Load.Rows.{occurs, AllBelow}
use picon.Load.Relocations.{same_name}
use picon.Load.Search.{same_name_sound}
use picon.Pass.{
  put_fct, has_fct, replace_fct, Name, Function, CfiFct, Cfi, FileEntry, lookup, get_identifier,
  identify_function, is_ignored_function, identify_module,
}

-- The ids of some functions.
abbrev pub ids : List (Name × ℕ) → List ℕ
ids [] = []
ids ((name, id) ∷ rest) = id ∷ ids rest

abbrev pub AreDistinct : List ℕ → Type 0
AreDistinct [] = Unit {0}
AreDistinct (c ∷ cs) = (occurs c cs ≡ false) × AreDistinct cs

-- The functions of the map have the ids that their names have.
abbrev pub AreMapped : List (Name × ℕ) → List CfiFct → Type 0
AreMapped l [] = Unit {0}
AreMapped l (c ∷ cs) = (lookup c.fun.name l ≡ some c.id) × AreMapped l cs

-- The identifiers are below the counter, and no two functions share one; the functions
-- of the map have theirs.
pub record IsNumbered (cfi : Cfi) : Type 0 where
  pub below : AllBelow cfi.fun_id_ctr (ids cfi.identified_functions)
  pub distinct : AreDistinct (ids cfi.identified_functions)
  pub is_mapped : AreMapped cfi.identified_functions cfi.function_map

-- The ids of the lines are new after `used`, and below `limit`.
abbrev pub AreNew : ℕ → List FileEntry → List ℕ → Type 0
AreNew limit [] used = Unit {0}
AreNew limit (e ∷ es) used =
    (e.id < limit) × (occurs e.id used ≡ false) × AreNew limit es (e.id ∷ used)

pub AllBelow-le : (n k : ℕ) (cs : List ℕ) → n ≤ k → AllBelow n cs → AllBelow k cs
AllBelow-le n k [] le h = tt
AllBelow-le n k (c ∷ cs) le h = (omega (arith, h.0), AllBelow-le n k cs le h.1)

pub AllBelow-occurs : (n : ℕ) (cs : List ℕ) → AllBelow n cs → occurs n cs ≡ false
AllBelow-occurs n [] h = refl
AllBelow-occurs n (c ∷ cs) h =
    let apart : (c == n) ≡ false = ground (arith, h.0) in rw apart (AllBelow-occurs n cs h.1)

pub lookup-occurs :
    (name : Name) (l : List (Name × ℕ)) (id : ℕ)
    → lookup name l ≡ some id
    → occurs id (ids l) ≡ true
lookup-occurs name [] id h = absurd (ground arith)
lookup-occurs name ((n, k) ∷ rest) id h = elim (Bool-cases (same_name n name)) [
  | inl same ↦ ground arith
  | inr apart ↦ ground (arith, lookup-occurs name rest id (ground arith))
]

-- Where ids are distinct, an id belongs to one name.
pub lookup_injective :
    (a b : Name) (l : List (Name × ℕ)) (id : ℕ)
    → AreDistinct (ids l)
    → lookup a l ≡ some id
    → lookup b l ≡ some id
    → a ≡ b
lookup_injective a b [] id d h k = absurd (ground arith)
lookup_injective a b ((n, c) ∷ rest) id d h k = elim (Bool-cases (same_name n a)) [
  | inl na ↦ elim (Bool-cases (same_name n b)) [
    | inl nb ↦ sym (same_name_sound n a na) ∙ same_name_sound n b nb
    | inr nb ↦
        let later = lookup-occurs b rest id (ground arith) in
        let same : c ≡ id = ground arith in absurd (ground (arith, d.0))
  ]
  | inr na ↦ elim (Bool-cases (same_name n b)) [
    | inl nb ↦
        let later = lookup-occurs a rest id (ground arith) in
        let same : c ≡ id = ground arith in absurd (ground (arith, d.0))
    | inr nb ↦ lookup_injective a b rest id d.1 (ground arith) (ground arith)
  ]
]

pub same_name_refl : (a : Name) → same_name a a ≡ true
same_name_refl [] = refl
same_name_refl (c ∷ a) = ground (arith, same_name_refl a)

-- A function that gets an id leaves the others theirs.
pub lookup-new :
    (name x : Name) (id k : ℕ) (l : List (Name × ℕ))
    → lookup name l ≡ none
    → lookup x l ≡ some k
    → lookup x ((name, id) ∷ l) ≡ some k
lookup-new name x id k l new h = elim (Bool-cases (same_name name x)) [
  | inr apart ↦ ground arith
  | inl same ↦ let q = same_name_sound name x same in absurd (ground arith)
]

pub lookup_self :
    (name : Name) (id : ℕ) (l : List (Name × ℕ)) → lookup name ((name, id) ∷ l) ≡ some id
lookup_self name id l = rw (lookup, same_name_refl name)

pub AreMapped-new :
    (name : Name) (id : ℕ) (l : List (Name × ℕ)) (cs : List CfiFct)
    → lookup name l ≡ none
    → AreMapped l cs
    → AreMapped ((name, id) ∷ l) cs
AreMapped-new name id l [] new h = tt
AreMapped-new name id l (c ∷ cs) new h =
    (lookup-new name c.fun.name id c.id l new h.0, AreMapped-new name id l cs new h.1)

-- The state after a function is identified and put into the map.
AreMapped-replace_fct :
    (l : List (Name × ℕ)) (c : CfiFct) (cs : List CfiFct)
    → lookup c.fun.name l ≡ some c.id
    → AreMapped l cs
    → AreMapped l (replace_fct c cs)
AreMapped-replace_fct l c [] q h = tt
AreMapped-replace_fct l c (x ∷ xs) q h = elim (Bool-cases (same_name x.fun.name c.fun.name)) [
  | inl s ↦ let e : replace_fct c (x ∷ xs) ≡ c ∷ xs = ground arith in rw e (q, h.1)
  | inr s ↦
      let e : replace_fct c (x ∷ xs) ≡ x ∷ replace_fct c xs = ground arith in
      rw e (h.0, AreMapped-replace_fct l c xs q h.1)
]

AreMapped-put_fct :
    (l : List (Name × ℕ)) (c : CfiFct) (cs : List CfiFct)
    → lookup c.fun.name l ≡ some c.id
    → AreMapped l cs
    → AreMapped l (put_fct c cs)
AreMapped-put_fct l c cs q h = elim (Bool-cases (has_fct c.fun.name cs)) [
  | inl s ↦
      let e : put_fct c cs ≡ replace_fct c cs = ground arith in
      rw e (AreMapped-replace_fct l c cs q h)
  | inr s ↦ let e : put_fct c cs ≡ c ∷ cs = ground arith in rw e (q, h)
]

abbrev pub mapped : Cfi → Function → Cfi
mapped cfi f =
    let r = identify_function cfi f.name in
    record r.0 { function_map = put_fct (record { fun = f; id = r.1 }) r.0.function_map }

mapped_known :
    (cfi : Cfi) (f : Function) (id : ℕ)
    → lookup f.name cfi.identified_functions ≡ some id
    → mapped cfi f
      ≡ record cfi { function_map = put_fct (record { fun = f; id = id }) cfi.function_map }
unfolding identify_function
mapped_known cfi f id h = rw (mapped, identify_function, h)

mapped_new :
    (cfi : Cfi) (f : Function)
    → lookup f.name cfi.identified_functions ≡ none
    → cfi.fun_id_ctr + 1 < 2 ^ 32
    → mapped cfi f ≡ record cfi {
      identified_functions = (f.name, cfi.fun_id_ctr) ∷ cfi.identified_functions;
      fun_id_ctr = cfi.fun_id_ctr + 1;
      function_map = put_fct (record { fun = f; id = cfi.fun_id_ctr }) cfi.function_map;
    }
unfolding identify_function
mapped_new cfi f h w =
    let fits : (cfi.fun_id_ctr + 1) % 2 ^ 32 ≡ cfi.fun_id_ctr + 1 = omega (arith, w) in
    rw (mapped, identify_function, h, fits)

-- What identifying functions does to the state: the invariant stays, every function that had an id
-- keeps it, the counter grows by one at most for each.
pub record Numbers (cfi' cfi : Cfi) (count : ℕ) : Type 0 where
  pub numbered : IsNumbered cfi'
  pub kept_ids : (x : Name) (k : ℕ) → get_identifier cfi x ≡ some k → get_identifier cfi' x ≡ some k
  pub counter : cfi'.fun_id_ctr ≤ cfi.fun_id_ctr + count

mapped-Numbers :
    (cfi : Cfi) (f : Function)
    → cfi.fun_id_ctr + 1 < 2 ^ 32
    → IsNumbered cfi
    → Numbers (mapped cfi f) cfi 1
mapped-Numbers cfi f w h = elim (Option-cases (lookup f.name cfi.identified_functions)) [
  | inr (id, known) ↦ rw (mapped_known cfi f id known) (record {
    numbered = record {
      below = h.below;
      distinct = h.distinct;
      is_mapped =
          AreMapped-put_fct cfi.identified_functions (record { fun = f; id = id }) cfi.function_map
            known h.is_mapped;
    };
    kept_ids = λ x k q. q;
    counter = omega arith;
  })
  | inl new ↦ rw (mapped_new cfi f new w) (record {
    numbered = record {
      below = (
        omega arith,
        AllBelow-le cfi.fun_id_ctr (cfi.fun_id_ctr + 1) (ids cfi.identified_functions) (omega arith)
            h.below,
      );
      distinct =
          (AllBelow-occurs cfi.fun_id_ctr (ids cfi.identified_functions) h.below, h.distinct);
      is_mapped =
          AreMapped-put_fct ((f.name, cfi.fun_id_ctr) ∷ cfi.identified_functions)
            (record { fun = f; id = cfi.fun_id_ctr }) cfi.function_map
            (lookup_self f.name cfi.fun_id_ctr cfi.identified_functions)
            (AreMapped-new f.name cfi.fun_id_ctr cfi.identified_functions cfi.function_map new
              h.is_mapped);
    };
    kept_ids = λ x k q. lookup-new f.name x cfi.fun_id_ctr k cfi.identified_functions new q;
    counter = omega arith;
  })
]

pub identify_module-Numbers :
    (cfi : Cfi) (fs : List Function)
    → cfi.fun_id_ctr + length fs < 2 ^ 32
    → IsNumbered cfi
    → Numbers (identify_module cfi fs) cfi (length fs)
unfolding identify_module
identify_module-Numbers cfi [] w h = record {
  numbered = h;
  kept_ids = λ x k q. q;
  counter = omega arith;
}
identify_module-Numbers cfi (f ∷ fs) w h =
    elim (Bool-cases (is_ignored_function cfi f.name || f.is_intrinsic)) [
      | inl skipped ↦
          let q : identify_module cfi (f ∷ fs) ≡ identify_module cfi fs = ground arith in
          let n = identify_module-Numbers cfi fs (omega (arith, w)) h in
          rw q (record {
            numbered = n.numbered;
            kept_ids = n.kept_ids;
            counter = omega (arith, n.counter);
          })
      | inr seen ↦
          let q : identify_module cfi (f ∷ fs) ≡ identify_module (mapped cfi f) fs = ground arith in
          let one = mapped-Numbers cfi f (omega (arith, w)) h in
          let n =
            identify_module-Numbers (mapped cfi f) fs (omega (arith, w, one.counter))
              one.numbered in
          rw q (record {
            numbered = n.numbered;
            kept_ids = λ x k p. n.kept_ids x k (one.kept_ids x k p);
            counter = omega (arith, n.counter, one.counter);
          })
    ]
