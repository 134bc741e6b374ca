-- ===== src/Load/Rows.antt =====
-- The entries of a section of transitions (`msg_fct_trans_t` and `msg_block_trans_t` of
-- include/picon/shared.h), and what a matrix holds once they are put in.
use picon.Base.{
  ℕ, zero, suc, ◌^◌, ◌<◌, ◌≡◌, ◌≢◌, ◌≤◌, refl, ◌∙◌, sym, Bool, false, not, ◌||◌, ◌&&◌, ◌==◌, leb,
  List, [], ◌∷◌, ◌++◌, Option, none, some, length, get_elem?, set, replicate, arith, length-set,
  length-replicate, get_elem?-set_self, get_elem?-set_ne, Bool-cases, or_assoc, or_false, inl, inr,
}
use picon.Tables.{Matrix, at}
use picon.Load.Cursor.{◌>>=◌, u32_bytes, read_u32-bytes}
use picon.Load.Transitions.{fill_row}

-- The ids that may follow `source`.
pub record Entry : Type 0 where
  pub source : ℕ
  pub targets : List ℕ

-- The bytes of some ids, and of some entries, before `rest`.
abbrev pub ids_bytes : List ℕ → List ℕ → List ℕ
ids_bytes [] rest = rest
ids_bytes (c ∷ ids) rest = u32_bytes c ++ ids_bytes ids rest

abbrev pub entries_bytes : List Entry → List ℕ → List ℕ
entries_bytes [] rest = rest
entries_bytes (e ∷ es) rest =
    u32_bytes e.source
    ++ (u32_bytes (length e.targets) ++ ids_bytes e.targets (entries_bytes es rest))

abbrev pub AllBelow : ℕ → List ℕ → Type 0
AllBelow n [] = Unit {0}
AllBelow n (c ∷ ids) = (c < n) × AllBelow n ids

-- The ids are below the count `n`, and the lengths fit their fields.
abbrev pub AreEntries : ℕ → List Entry → Type 0
AreEntries n [] = Unit {0}
AreEntries n (e ∷ es) =
    (e.source < n) × (length e.targets < 2 ^ 32) × AllBelow n e.targets × AreEntries n es

-- Whether `source` is listed with `target` in the entries.
abbrev pub occurs : ℕ → List ℕ → Bool
occurs target [] = false
occurs target (c ∷ ids) = (c == target) || occurs target ids

abbrev pub listed : List Entry → ℕ → ℕ → Bool
listed [] source target = false
listed (e ∷ es) source target =
    ((e.source == source) && occurs target e.targets) || listed es source target

-- Whether a matrix allows to go from `source` to `target`: `p[source][target]` is not 0.
abbrev pub has_bit : List ℕ → ℕ → Bool
has_bit row j = elim (get_elem? row j) [ none ↦ false | some c ↦ not (c == 0) ]

abbrev pub row_has : Option (Option (List ℕ)) → ℕ → Bool
row_has none j = false
row_has (some none) j = false
row_has (some (some row)) j = has_bit row j

abbrev pub allows : Matrix → ℕ → ℕ → Bool
allows p source target = row_has (at p source) target

-- A row with the cells of some ids set.
abbrev pub mark : List ℕ → List ℕ → List ℕ
mark row [] = row
mark row (c ∷ ids) = mark (set row c 1) ids

-- A row that is NULL is one of zeros.
abbrev pub row_or_zeros : ℕ → Option (Option (List ℕ)) → List ℕ
row_or_zeros n (some (some row)) = row
row_or_zeros n _ = replicate n 0

-- The rows after some entries.
abbrev pub put_row : ℕ → List (Option (List ℕ)) → Entry → List (Option (List ℕ))
put_row n rows e =
    set rows e.source (some (mark (row_or_zeros n (get_elem? rows e.source)) e.targets))

abbrev pub put_rows : ℕ → List (Option (List ℕ)) → List Entry → List (Option (List ℕ))
put_rows n rows [] = rows
put_rows n rows (e ∷ es) = put_rows n (put_row n rows e) es

-- The rows that are not NULL have `n` cells.
abbrev pub RowsOf : ℕ → List (Option (List ℕ)) → Type 0
RowsOf n [] = Unit {0}
RowsOf n (none ∷ rows) = RowsOf n rows
RowsOf n (some row ∷ rows) = (length row ≡ n) × RowsOf n rows

pub length-mark : (row ids : List ℕ) → length (mark row ids) ≡ length row
length-mark row [] = refl
length-mark row (c ∷ ids) = length-mark (set row c 1) ids ∙ length-set row c 1

has_bit-set :
    (row : List ℕ) (c j : ℕ)
    → c < length row
    → has_bit (set row c 1) j ≡ (has_bit row j || (c == j))
has_bit-set [] c j h = absurd (omega arith)
has_bit-set (x ∷ row) zero zero h = ground arith
has_bit-set (x ∷ row) zero (suc j) h = ground arith
has_bit-set (x ∷ row) (suc c) zero h = ground arith
has_bit-set (x ∷ row) (suc c) (suc j) h = has_bit-set row c j (omega arith) ∙ ground arith

has_bit-mark :
    (row ids : List ℕ) (j : ℕ)
    → AllBelow (length row) ids
    → has_bit (mark row ids) j ≡ (has_bit row j || occurs j ids)
has_bit-mark row [] j h = ground arith
has_bit-mark row (c ∷ ids) j h =
    has_bit-mark (set row c 1) ids j (rw (length-set row c 1) h.1)
    ∙ (rw (has_bit-set row c j h.0) (or_assoc (has_bit row j) (c == j) (occurs j ids)))

has_bit-zeros : (n j : ℕ) → has_bit (replicate n 0) j ≡ false
has_bit-zeros zero j = refl
has_bit-zeros (suc n) zero = refl
has_bit-zeros (suc n) (suc j) = has_bit-zeros n j

-- What `put_row` does to the row it names, and to the others.
put_row_self :
    (n : ℕ) (rows : List (Option (List ℕ))) (e : Entry)
    → e.source < length rows
    → get_elem? (put_row n rows e) e.source
      ≡ some (some (mark (row_or_zeros n (get_elem? rows e.source)) e.targets))
put_row_self n rows e h = get_elem?-set_self rows e.source _ h

RowsOf-lookup :
    (n : ℕ) (rows : List (Option (List ℕ))) (i : ℕ)
    → RowsOf n rows
    → length (row_or_zeros n (get_elem? rows i)) ≡ n
RowsOf-lookup n [] i h = length-replicate n 0
RowsOf-lookup n (none ∷ rows) zero h = length-replicate n 0
RowsOf-lookup n (some row ∷ rows) zero h = h.0
RowsOf-lookup n (none ∷ rows) (suc i) h = RowsOf-lookup n rows i h
RowsOf-lookup n (some row ∷ rows) (suc i) h = RowsOf-lookup n rows i h.1

pub set-RowsOf :
    (n : ℕ) (rows : List (Option (List ℕ))) (i : ℕ) (row : List ℕ)
    → RowsOf n rows
    → length row ≡ n
    → RowsOf n (set rows i (some row))
set-RowsOf n [] i row h l = h
set-RowsOf n (none ∷ rows) zero row h l = (l, h)
set-RowsOf n (some old ∷ rows) zero row h l = (l, h.1)
set-RowsOf n (none ∷ rows) (suc i) row h l = set-RowsOf n rows i row h l
set-RowsOf n (some old ∷ rows) (suc i) row h l = (h.0, set-RowsOf n rows i row h.1 l)

pub put_row-RowsOf :
    (n : ℕ) (rows : List (Option (List ℕ))) (e : Entry)
    → RowsOf n rows
    → RowsOf n (put_row n rows e)
put_row-RowsOf n rows e h = set-RowsOf n rows e.source _ h (
    length-mark (row_or_zeros n (get_elem? rows e.source)) e.targets
    ∙ RowsOf-lookup n rows e.source h)

has_bit-row_or_zeros :
    (n j : ℕ) (r : Option (Option (List ℕ))) → has_bit (row_or_zeros n r) j ≡ row_has r j
has_bit-row_or_zeros n j none = has_bit-zeros n j
has_bit-row_or_zeros n j (some none) = has_bit-zeros n j
has_bit-row_or_zeros n j (some (some row)) = refl

row_has-put_row :
    (n : ℕ) (rows : List (Option (List ℕ))) (e : Entry) (i j : ℕ)
    → e.source < length rows
    → AllBelow n e.targets
    → RowsOf n rows
    → row_has (get_elem? (put_row n rows e) i) j
      ≡ (row_has (get_elem? rows i) j || ((e.source == i) && occurs j e.targets))
row_has-put_row n rows e i j h below shape = elim (Bool-cases (e.source == i)) [
  | inl same ↦
      let at_i : e.source ≡ i = ground arith in
      let old = row_or_zeros n (get_elem? rows e.source) in
      let fits : AllBelow (length old) e.targets = rw (RowsOf-lookup n rows e.source shape) below in
      rw (
        same,
        sym at_i,
        put_row_self n rows e h,
        has_bit-mark old e.targets j fits,
        has_bit-row_or_zeros n j (get_elem? rows e.source),
      )
  | inr other ↦
      let apart : e.source ≢ i = λ q. ground arith in
      let new = some (mark (row_or_zeros n (get_elem? rows e.source)) e.targets) in
      rw (other, get_elem?-set_ne rows new apart, or_false (row_has (get_elem? rows i) j))
]

-- The matrix after some entries allows what it allowed, and what the entries list.
pub allows-put_rows :
    (n : ℕ) (rows : List (Option (List ℕ))) (es : List Entry) (i j : ℕ)
    → length rows ≡ n
    → RowsOf n rows
    → AreEntries n es
    → allows (some (put_rows n rows es)) i j ≡ (allows (some rows) i j || listed es i j)
allows-put_rows n rows [] i j l shape h = sym (or_false (allows (some rows) i j))
allows-put_rows n rows (e ∷ es) i j l shape h =
    allows-put_rows n (put_row n rows e) es i j (length-set rows e.source _ ∙ l)
      (put_row-RowsOf n rows e shape) h.3
    ∙ rw (row_has-put_row n rows e i j (omega (arith, l, h.0)) h.2 shape) (
        or_assoc (row_has (get_elem? rows i) j) ((e.source == i) && occurs j e.targets)
          (listed es i j))

pub replicate-RowsOf : (n k : ℕ) → RowsOf n (replicate k none)
replicate-RowsOf n zero = tt
replicate-RowsOf n (suc k) = replicate-RowsOf n k

pub replicate-allows : (n i j : ℕ) → allows (some (replicate n none)) i j ≡ false
replicate-allows zero i j = refl
replicate-allows (suc n) zero j = refl
replicate-allows (suc n) (suc i) j = replicate-allows n i j

-- The inner loop goes through the ids.
pub fill_row-bytes :
    (code n : ℕ) (ids rest row : List ℕ)
    → n ≤ 2 ^ 32
    → AllBelow n ids
    → fill_row code n (length ids) (ids_bytes ids rest) row
      ≡ some (record { code = 0; row = mark row ids; rest = rest })
unfolding fill_row
fill_row-bytes code n [] rest row w h = refl
fill_row-bytes code n (c ∷ ids) rest row w h =
    let below : leb n c ≡ false = ground (arith, h.0) in
    rw (read_u32-bytes c (ids_bytes ids rest) (omega (arith, w, h.0)), ◌>>=◌, below)
      (fill_row-bytes code n ids rest (set row c 1) w h.1)
