-- ===== src/Pass/Distinct.antt =====
-- llvm_pass/CFI/CFI.cpp, `writeFunctionIDs`: no name stands twice in the file, and no id.
use picon.Base.{
  ℕ, ◌<◌, ◌≤◌, ◌≡◌, refl, ◌∙◌, ap, true, false, ◌==◌, List, [], ◌∷◌, some, Bool-cases, inl, inr,
  arith,
}
use picon.Load.Rows.{occurs, AllBelow}
use picon.Load.Relocations.{same_name}
use picon.Load.Search.{same_name_sound}
use picon.Pass.{Name, Cfi, FileEntry, contains, get_identifier}
use picon.Pass.Numbered.{IsNumbered, AreNew, ids, lookup_injective, lookup-occurs, same_name_refl}
use picon.Pass.FileIds.{AreFileIds}
use picon.Pass.Covered.{file_names}

-- No name stands twice.
abbrev pub AreOnce : List Name → Type 0
AreOnce [] = Unit {0}
AreOnce (n ∷ names) = (contains names n ≡ false) × AreOnce names

-- The ids of the lines.
abbrev line_ids : List FileEntry → List ℕ
line_ids [] = []
line_ids (e ∷ es) = e.id ∷ line_ids es

pub same_name_comm : (a b : Name) → same_name a b ≡ same_name b a
same_name_comm [] [] = refl
same_name_comm [] (d ∷ b) = refl
same_name_comm (c ∷ a) [] = refl
same_name_comm (c ∷ a) (d ∷ b) = ground (arith, same_name_comm a b)

AllBelow-occurs_lt : (n : ℕ) (cs : List ℕ) (c : ℕ) → AllBelow n cs → occurs c cs ≡ true → c < n
AllBelow-occurs_lt n [] c h q = absurd (ground arith)
AllBelow-occurs_lt n (x ∷ xs) c h q = elim (Bool-cases (x == c)) [
  | inl same ↦ let e : x ≡ c = ground arith in omega (arith, h.0, e)
  | inr apart ↦ AllBelow-occurs_lt n xs c h.1 (ground arith)
]

-- The id of a name that is not among some lines is not among their ids.
id_unused :
    (cfi : Cfi) (before : List FileEntry) (x : Name) (id : ℕ)
    → IsNumbered cfi
    → AreFileIds cfi before
    → get_identifier cfi x ≡ some id
    → contains (file_names before) x ≡ false
    → occurs id (line_ids before) ≡ false
id_unused cfi [] x id n h q free = refl
id_unused cfi (e ∷ es) x id n h q free = elim (Bool-cases (same_name e.fct_name x)) [
  | inl same ↦ absurd (ground arith)
  | inr apart ↦ elim (Bool-cases (e.id == id)) [
    | inl taken ↦
        let same : e.id ≡ id = ground arith in
        let one : e.fct_name ≡ x =
          lookup_injective e.fct_name x cfi.identified_functions id n.distinct (h.0 ∙ ap some same)
            q in
        let again : same_name e.fct_name x ≡ true = rw one (same_name_refl x) in
        absurd (ground arith)
    | inr other ↦ rw other (id_unused cfi es x id n h.1 q (ground arith))
  ]
]

pub later_in :
    (n x : Name) (names : List Name) → contains names x ≡ true → contains (n ∷ names) x ≡ true
later_in n x names h = elim (Bool-cases (same_name n x)) [
  | inl s ↦ ground arith
  | inr s ↦ ground arith
]

-- So lines with the ids of their names, none of which stands twice, have new ids.
pub AreFileIds-AreNew :
    (cfi : Cfi) (limit : ℕ) (es before : List FileEntry)
    → IsNumbered cfi
    → cfi.fun_id_ctr ≤ limit
    → AreFileIds cfi es
    → AreFileIds cfi before
    → AreOnce (file_names es)
    → ((x : Name) → contains (file_names es) x ≡ true → contains (file_names before) x ≡ false)
    → AreNew limit es (line_ids before)
AreFileIds-AreNew cfi limit [] before n le h k once apart = tt
AreFileIds-AreNew cfi limit (e ∷ es) before n le h k once apart =
    let own : same_name e.fct_name e.fct_name ≡ true = same_name_refl e.fct_name in
    let below =
      AllBelow-occurs_lt cfi.fun_id_ctr (ids cfi.identified_functions) e.id n.below
        (lookup-occurs e.fct_name cfi.identified_functions e.id h.0) in
    (
      omega (arith, below, le),
      id_unused cfi before e.fct_name e.id n k h.0 (apart e.fct_name (ground arith)),
      AreFileIds-AreNew cfi limit es (e ∷ before) n le h.1 (h.0, k) once.1
          (λ x q. elim (Bool-cases (same_name e.fct_name x)) [
            | inl same ↦
                let one : e.fct_name ≡ x = same_name_sound e.fct_name x same in
                let twice = ap (contains (file_names es)) one in absurd (ground (arith, once.0))
            | inr other ↦ rw (contains, other) (apart x (later_in e.fct_name x (file_names es) q))
          ]),
    )
