-- ===== src/Load/Relocations.antt =====
-- monitor/src/monitor_load.c, `compute_relocations_of_module`. What the loops read of the modules
-- does not change while they run, so the state of a loop is the array of relocations.
use picon.Base.{
  ℕ, zero, suc, ◌+◌, Bool, true, false, ◌&&◌, ◌==◌, leb, List, [], ◌∷◌, length, Option, none, some,
  set,
}
use picon.Ids.{module_function}
use picon.Tables.{put_at, ModuleData, MonitorData, at, is_external}
use picon.Load.Cursor.{◌>>=◌}

-- `strcmp(a, b) == 0`
abbrev pub same_name : List ℕ → List ℕ → Bool
same_name [] [] = true
same_name [] (d ∷ b) = false
same_name (c ∷ a) [] = false
same_name (c ∷ a) (d ∷ b) = (c == d) && same_name a b

-- The loop over `l`: the first function from `l` on that is not external and has the name.
unfoldable pub search_functions : Option (List ℕ) → ModuleData → ℕ → ℕ → Option (Option ℕ)
search_functions name mk zero l = some none
search_functions name mk (suc rounds) l = do
  f ← at mk.functions l
  elim (is_external f) [
    | true ↦ search_functions name mk rounds (l + 1)
    | false ↦ do
      a ← name
      b ← f.name
      elim (same_name a b) [
        | true ↦ some (some l)
        | false ↦ search_functions name mk rounds (l + 1)
      ]
  ]

-- The loop over `k`, from the last of `n` modules down; the module `mid` itself is left out.
unfoldable pub search_modules : MonitorData → ℕ → Option (List ℕ) → ℕ → Option (Option (ℕ × ℕ))
search_modules mon mid name zero = some none
search_modules mon mid name (suc k) = elim (mid == k) [
  | true ↦ search_modules mon mid name k
  | false ↦ do
    mk ← at mon.modules k
    found ← search_functions name mk mk.nb_functions 0
    elim found [ some l ↦ some (some (k, l)) | none ↦ search_modules mon mid name k ]
]

-- `relocations[j] = r`
abbrev pub set_relocation : Option (List ℕ) → ℕ → ℕ → Option (Option (List ℕ))
set_relocation none j r = none
set_relocation (some rs) j r = elim (leb (length rs) j) [
  | true ↦ none
  | false ↦ some (some (set rs j r))
]

-- The loop over `rounds` functions from `j` on; `fatal` is `unresolved_is_fatal`.
unfoldable pub relocate :
    MonitorData → ModuleData → ℕ → Bool → ℕ → ℕ → Option (List ℕ) → Option (ℕ × Option (List ℕ))
relocate mon mi mid fatal zero j relocs = some (0, relocs)
relocate mon mi mid fatal (suc rounds) j relocs = do
  f ← at mi.functions j
  elim (is_external f) [
    | false ↦ relocate mon mi mid fatal rounds (j + 1) relocs
    | true ↦ do
      found ← search_modules mon mid f.name mon.nb_modules
      elim found [
        | some (k, l) ↦ do
          relocs' ← set_relocation relocs j (module_function k l)
          relocate mon mi mid fatal rounds (j + 1) relocs'
        | none ↦ elim fatal [
          | true ↦ some (1, relocs)
          | false ↦ relocate mon mi mid fatal rounds (j + 1) relocs
        ]
      ]
  ]

-- A module in its place.
abbrev pub put_module : Option (List ModuleData) → ℕ → ModuleData → Option (List ModuleData)
put_module ms mid mi = put_at ms mid mi

-- `compute_relocations_of_module`
unfoldable pub compute_relocations_of_module : MonitorData → ℕ → Bool → Option (ℕ × MonitorData)
compute_relocations_of_module mon mid fatal = do
  mi ← at mon.modules mid
  r ← relocate mon mi mid fatal mi.nb_functions 0 mi.relocations
  some (r.0, record mon { modules = put_module mon.modules mid (record mi { relocations = r.1 }) })
