-- ===== src/Pass/Written.antt =====
-- llvm_pass/CFI/CFI.cpp, `writeFunctionIDs`: what the written file gives the functions.
use picon.Base.{
  ℕ, ◌≡◌, refl, sym, ap, ◌⊎◌, true, ◌||◌, List, [], ◌∷◌, some, Option-cases, Bool-cases, inl, inr,
  arith,
}
use picon.Load.Relocations.{same_name}
use picon.Load.Search.{same_name_sound}
use picon.Pass.{Name, CfiFct, Cfi, FileEntry, contains, get_identifier}
use picon.Pass.Numbered.{AreMapped}
use picon.Pass.FileIds.{AreFileIds}
use picon.Pass.Covered.{file_names}
use picon.Pass.FunctionIds.{
  put_entry, read_old, find_entry, id_agrees, write_function, write_functions,
}

-- The line of a function names it, with its id.
pub write_function-named :
    (cfi : Cfi) (fun_id_file : Name) (old : List FileEntry) (c : CfiFct) (e : FileEntry)
    → get_identifier cfi c.fun.name ≡ some c.id
    → write_function cfi fun_id_file old c ≡ some e
    → (e.fct_name ≡ c.fun.name) × (e.id ≡ c.id)
unfolding write_function
write_function-named cfi fun_id_file old c e h w =
    elim (Bool-cases (id_agrees (find_entry c.fun.name old) c.id)) [
      | inr b ↦ absurd (ground arith)
      | inl a ↦ ground arith
    ]

AreFileIds-put_entry :
    (cfi : Cfi) (e : FileEntry) (old : List FileEntry)
    → get_identifier cfi e.fct_name ≡ some e.id
    → AreFileIds cfi old
    → AreFileIds cfi (put_entry e old)
unfolding put_entry
AreFileIds-put_entry cfi e [] h k = (h, tt)
AreFileIds-put_entry cfi e (x ∷ xs) h k = elim (Bool-cases (same_name x.fct_name e.fct_name)) [
  | inl same ↦ let q : put_entry e (x ∷ xs) ≡ e ∷ xs = ground arith in rw q (h, k.1)
  | inr apart ↦
      let q : put_entry e (x ∷ xs) ≡ x ∷ put_entry e xs = ground arith in
      rw q (k.0, AreFileIds-put_entry cfi e xs h k.1)
]

pub AreFileIds-read_old :
    (cfi : Cfi) (file old : List FileEntry)
    → AreFileIds cfi file
    → AreFileIds cfi old
    → AreFileIds cfi (read_old file old)
unfolding read_old
AreFileIds-read_old cfi [] old h k = k
AreFileIds-read_old cfi (e ∷ es) old h k =
    AreFileIds-read_old cfi es (put_entry e old) h.1 (AreFileIds-put_entry cfi e old h.0 k)

-- The names of `oldMap` are those of the file.
contains-put_entry :
    (e : FileEntry) (old : List FileEntry) (x : Name)
    → (same_name e.fct_name x || contains (file_names old) x) ≡ true
    → contains (file_names (put_entry e old)) x ≡ true
unfolding put_entry
contains-put_entry e [] x h = elim (Bool-cases (same_name e.fct_name x)) [
  | inl s ↦ ground arith
  | inr s ↦ absurd (ground arith)
]
contains-put_entry e (y ∷ ys) x h = elim (Bool-cases (same_name y.fct_name e.fct_name)) [
  | inl same ↦
      let q : put_entry e (y ∷ ys) ≡ e ∷ ys = ground arith in
      let n = same_name_sound y.fct_name e.fct_name same in
      rw q (elim (Bool-cases (same_name e.fct_name x)) [
        | inl s ↦ ground arith
        | inr s ↦ ground (arith, ap (λ a. same_name a x) n)
      ])
  | inr apart ↦
      let q : put_entry e (y ∷ ys) ≡ y ∷ put_entry e ys = ground arith in
      rw q (ground (arith, contains-put_entry e ys x))
]

pub contains-read_old :
    (file old : List FileEntry) (x : Name)
    → (contains (file_names file) x ≡ true) ⊎ (contains (file_names old) x ≡ true)
    → contains (file_names (read_old file old)) x ≡ true
unfolding read_old
contains-read_old [] old x (inl h) = absurd (ground arith)
contains-read_old [] old x (inr h) = h
contains-read_old (e ∷ es) old x (inl h) = elim (Bool-cases (same_name e.fct_name x)) [
  | inl same ↦
      contains-read_old es (put_entry e old) x (inr (contains-put_entry e old x (ground arith)))
  | inr apart ↦ contains-read_old es (put_entry e old) x (inl (ground arith))
]
contains-read_old (e ∷ es) old x (inr h) = contains-read_old es (put_entry e old) x (
    inr (
      contains-put_entry e old x (elim (Bool-cases (same_name e.fct_name x)) [
        | inl s ↦ ground arith
        | inr s ↦ ground arith
      ])))

-- The assertion on the identifier holds where the old lines have the ids of their names.
id_agrees-find_entry :
    (cfi : Cfi) (old : List FileEntry) (x : Name) (id : ℕ)
    → AreFileIds cfi old
    → get_identifier cfi x ≡ some id
    → id_agrees (find_entry x old) id ≡ true
id_agrees-find_entry cfi [] x id h q = refl
id_agrees-find_entry cfi (e ∷ es) x id h q = elim (Bool-cases (same_name e.fct_name x)) [
  | inl s ↦
      let known : get_identifier cfi x ≡ some e.id =
        rw (sym (same_name_sound e.fct_name x s)) h.0 in
      let same : e.id ≡ id = ground arith in ground arith
  | inr s ↦ ground (arith, id_agrees-find_entry cfi es x id h.1 q)
]

-- So the line of a function is written.
write_function-returns :
    (cfi : Cfi) (fun_id_file : Name) (old : List FileEntry) (c : CfiFct)
    → AreFileIds cfi old
    → get_identifier cfi c.fun.name ≡ some c.id
    → (e : FileEntry) × (write_function cfi fun_id_file old c ≡ some e)
unfolding write_function
write_function-returns cfi fun_id_file old c h q =
    let agrees = id_agrees-find_entry cfi old c.fun.name c.id h q in
    elim (Option-cases (write_function cfi fun_id_file old c)) [
      | inr r ↦ r
      | inl n ↦ absurd (ground arith)
    ]

pub write_functions-returns :
    (cfi : Cfi) (fun_id_file : Name) (old : List FileEntry) (cs : List CfiFct)
    → AreFileIds cfi old
    → AreMapped cfi.identified_functions cs
    → (lines : List FileEntry) × (write_functions cfi fun_id_file old cs ≡ some lines)
unfolding write_functions
write_functions-returns cfi fun_id_file old [] h m = ([], refl)
write_functions-returns cfi fun_id_file old (c ∷ cs) h m =
    let (e, first) = write_function-returns cfi fun_id_file old c h m.0 in
    let (rest, others) = write_functions-returns cfi fun_id_file old cs h m.1 in
    (e ∷ rest, ground arith)
