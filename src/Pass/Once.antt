-- ===== src/Pass/Once.antt =====
-- llvm_pass/CFI/CFI.cpp, `writeFunctionIDs`: no name is written twice.
use picon.Base.{
  ◌≡◌, refl, ◌∙◌, sym, ap, true, false, ◌||◌, List, [], ◌∷◌, ◌++◌, Bool-cases, inl, inr, arith,
}
use picon.Load.Relocations.{same_name}
use picon.Load.Search.{same_name_sound}
use picon.Pass.{Name, FileEntry, contains}
use picon.Pass.Covered.{file_names}
use picon.Pass.FunctionIds.{put_entry, read_old, left_over}
use picon.Pass.Distinct.{AreOnce, same_name_comm, later_in}
use picon.Pass.Numbered.{same_name_refl}

put_entry-names :
    (e : FileEntry) (old : List FileEntry) (x : Name)
    → contains (file_names (put_entry e old)) x
      ≡ (same_name e.fct_name x || contains (file_names old) x)
unfolding put_entry
put_entry-names e [] x = elim (Bool-cases (same_name e.fct_name x)) [
  | inl s ↦ ground arith
  | inr s ↦ ground arith
]
put_entry-names e (y ∷ ys) x = elim (Bool-cases (same_name y.fct_name e.fct_name)) [
  | inl same ↦
      let q : put_entry e (y ∷ ys) ≡ e ∷ ys = ground arith in
      let n = ap (λ a. same_name a x) (same_name_sound y.fct_name e.fct_name same) in
      rw q (elim (Bool-cases (same_name e.fct_name x)) [
        | inl s ↦ ground arith
        | inr s ↦ ground (arith, n)
      ])
  | inr apart ↦
      let q : put_entry e (y ∷ ys) ≡ y ∷ put_entry e ys = ground arith in
      rw q (ground (arith, put_entry-names e ys x))
]

AreOnce-put_entry :
    (e : FileEntry) (old : List FileEntry)
    → AreOnce (file_names old)
    → AreOnce (file_names (put_entry e old))
unfolding put_entry
AreOnce-put_entry e [] h = (refl, tt)
AreOnce-put_entry e (y ∷ ys) h = elim (Bool-cases (same_name y.fct_name e.fct_name)) [
  | inl same ↦
      let q : put_entry e (y ∷ ys) ≡ e ∷ ys = ground arith in
      let n = ap (contains (file_names ys)) (same_name_sound y.fct_name e.fct_name same) in
      rw q (sym n ∙ h.0, h.1)
  | inr apart ↦
      let q : put_entry e (y ∷ ys) ≡ y ∷ put_entry e ys = ground arith in
      let other = same_name_comm e.fct_name y.fct_name ∙ apart in
      let new : contains (file_names (put_entry e ys)) y.fct_name ≡ false =
        put_entry-names e ys y.fct_name ∙ rw other h.0 in
      rw q (new, AreOnce-put_entry e ys h.1)
]

pub AreOnce-read_old :
    (file old : List FileEntry)
    → AreOnce (file_names old)
    → AreOnce (file_names (read_old file old))
unfolding read_old
AreOnce-read_old [] old h = h
AreOnce-read_old (e ∷ es) old h = AreOnce-read_old es (put_entry e old) (AreOnce-put_entry e old h)

-- What is left over is of the old file, and not among the names.
left_over-names :
    (names : List Name) (old : List FileEntry) (x : Name)
    → contains (file_names (left_over names old)) x ≡ true
    → (contains (file_names old) x ≡ true) × (contains names x ≡ false)
unfolding left_over
left_over-names names [] x h = absurd (ground arith)
left_over-names names (e ∷ es) x h = elim (Bool-cases (contains names e.fct_name)) [
  | inl gone ↦
      let q : left_over names (e ∷ es) ≡ left_over names es = ground arith in
      let (there, free) = left_over-names names es x (rw q at h) in
      (
        elim (Bool-cases (same_name e.fct_name x)) [ inl s ↦ ground arith | inr s ↦ ground arith ],
        free,
      )
  | inr stays ↦
      let q : left_over names (e ∷ es) ≡ e ∷ left_over names es = ground arith in
      let h' : contains (e.fct_name ∷ file_names (left_over names es)) x ≡ true = rw q at h in
      elim (Bool-cases (same_name e.fct_name x)) [
        | inl s ↦ (ground arith, ap (contains names) (sym (same_name_sound e.fct_name x s)) ∙ stays)
        | inr s ↦
            let (there, free) = left_over-names names es x (ground arith) in (ground arith, free)
      ]
]

AreOnce-left_over :
    (names : List Name) (old : List FileEntry)
    → AreOnce (file_names old)
    → AreOnce (file_names (left_over names old))
unfolding left_over
AreOnce-left_over names [] h = tt
AreOnce-left_over names (e ∷ es) h = elim (Bool-cases (contains names e.fct_name)) [
  | inl gone ↦
      let q : left_over names (e ∷ es) ≡ left_over names es = ground arith in
      rw q (AreOnce-left_over names es h.1)
  | inr stays ↦
      let q : left_over names (e ∷ es) ≡ e ∷ left_over names es = ground arith in
      let once : contains (file_names (left_over names es)) e.fct_name ≡ false =
        elim (Bool-cases (contains (file_names (left_over names es)) e.fct_name)) [
          | inr n ↦ n
          | inl y ↦
              let (there, _) = left_over-names names es e.fct_name y in absurd (ground (arith, h.0))
        ] in
      rw q (once, AreOnce-left_over names es h.1)
]

append-names :
    (a b : List FileEntry) (x : Name)
    → contains (file_names a) x ≡ false
    → contains (file_names b) x ≡ false
    → contains (file_names (a ++ b)) x ≡ false
append-names [] b x h k = k
append-names (e ∷ a) b x h k = elim (Bool-cases (same_name e.fct_name x)) [
  | inl s ↦ absurd (ground arith)
  | inr s ↦ ground (arith, append-names a b x (ground arith) k)
]

-- The lines of the map, and what is left over, name each function once.
pub AreOnce-append :
    (own old : List FileEntry) (names : List Name)
    → AreOnce (file_names own)
    → ((x : Name) → contains (file_names own) x ≡ true → contains names x ≡ true)
    → AreOnce (file_names old)
    → AreOnce (file_names (own ++ left_over names old))
AreOnce-append [] old names h sub k = AreOnce-left_over names old k
AreOnce-append (e ∷ own) old names h sub k =
    let named : contains names e.fct_name ≡ true =
      sub e.fct_name (rw (contains, same_name_refl e.fct_name)) in
    let gone : contains (file_names (left_over names old)) e.fct_name ≡ false =
      elim (Bool-cases (contains (file_names (left_over names old)) e.fct_name)) [
        | inr n ↦ n
        | inl y ↦ let (_, free) = left_over-names names old e.fct_name y in absurd (ground arith)
      ] in
    (
      append-names own (left_over names old) e.fct_name h.0 gone,
      AreOnce-append own old names h.1 (λ x q. sub x (later_in e.fct_name x (file_names own) q)) k,
    )
