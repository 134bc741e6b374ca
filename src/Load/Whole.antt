-- ===== src/Load/Whole.antt =====
-- monitor/include/monitor_load.h: the arrays of the tables are as long as their counts say.
use picon.Base.{
  ℕ, zero, suc, ◌≤◌, ◌≡◌, sym, List, [], ◌∷◌, length, get_elem?, set, length-set, Option, none,
  some, arith,
}
use picon.Tables.{put_at, FunctionData, ModuleData, MonitorData, at, Matrix}
use picon.Load.Rule.{All}
use picon.Load.Functions.{set_function}
use picon.Load.Blocks.{put_function}
use picon.Load.Relocations.{put_module}
use picon.Load.Transitions.{set_row}

-- An array of `n` cells, or more. NULL has none.
abbrev pub Spans {ℓ} : {A : Type ℓ} → ℕ → Option (List A) → Type 0
Spans n none = n ≡ 0
Spans n (some xs) = n ≤ length xs

abbrev pub AllAt {ℓ κ} : {A : Type ℓ} → (A → Type κ) → Option (List A) → Type κ
AllAt P none = Unit
AllAt P (some xs) = All P xs

pub record IsWholeFunction (f : FunctionData) : Type 0 where
  pub jumps_span : Spans f.nb_blocks f.control_flow_graph
  pub post_dominators_span : Spans f.nb_blocks f.immediate_post_dominator

pub record IsWholeModule (m : ModuleData) : Type 0 where
  pub calls_span : Spans m.nb_functions m.call_graph
  pub relocations_span : Spans m.nb_functions m.relocations
  pub functions_span : Spans m.nb_functions m.functions
  pub functions_whole : AllAt IsWholeFunction m.functions

pub record IsWhole (mon : MonitorData) : Type 0 where
  pub modules_span : Spans mon.nb_modules mon.modules
  pub modules_whole : AllAt IsWholeModule mon.modules

module _ {ℓ} {A : Type ℓ} where
  pub set-Spans :
      (n : ℕ) (xs : List A) (i : ℕ) (v : A) → Spans n (some xs) → Spans n (some (set xs i v))
  set-Spans n xs i v h = rw (length-set xs i v) h

  pub set-All {κ} :
      (P : A → Type κ) (xs : List A) (i : ℕ) (v : A) → P v → All P xs → All P (set xs i v)
  set-All P [] i v p h = h
  set-All P (x ∷ xs) zero v p h = (p, h.1)
  set-All P (x ∷ xs) (suc i) v p h = (h.0, set-All P xs i v p h.1)

  pub All-get_elem {κ} :
      (P : A → Type κ) (xs : List A) (i : ℕ) (x : A) → All P xs → get_elem? xs i ≡ some x → P x
  All-get_elem P [] i x h e = absurd (ground arith)
  All-get_elem P (y ∷ xs) zero x h e = let same : y ≡ x = ground arith in rw (sym same) h.0
  All-get_elem P (y ∷ xs) (suc i) x h e = All-get_elem P xs i x h.1 e

  pub AllAt-at {κ} :
      (P : A → Type κ) (p : Option (List A)) (i : ℕ) (x : A) → AllAt P p → at p i ≡ some x → P x
  AllAt-at P none i x h e = absurd (ground arith)
  AllAt-at P (some xs) i x h e = All-get_elem P xs i x h e

pub set_row-Spans :
    (n : ℕ) (p : Matrix) (i : ℕ) (row : List ℕ) → Spans n p → Spans n (set_row p i row)
set_row-Spans n none i row h = h
set_row-Spans n (some rows) i row h = set-Spans n rows i (some row) h

module _ {ℓ} {A : Type ℓ} where
  pub put_at-Spans :
      (n : ℕ) (p : Option (List A)) (i : ℕ) (v : A) → Spans n p → Spans n (put_at p i v)
  put_at-Spans n none i v h = h
  put_at-Spans n (some xs) i v h = set-Spans n xs i v h

  pub put_at-AllAt {κ} :
      (P : A → Type κ) (p : Option (List A)) (i : ℕ) (v : A)
      → P v
      → AllAt P p
      → AllAt P (put_at p i v)
  put_at-AllAt P none i v q h = h
  put_at-AllAt P (some xs) i v q h = set-All P xs i v q h

pub put_function-IsWholeModule :
    (m : ModuleData) (i : ℕ) (f : FunctionData)
    → IsWholeFunction f
    → IsWholeModule m
    → IsWholeModule (put_function m i f)
put_function-IsWholeModule m i f w h = record {
  calls_span = h.calls_span;
  relocations_span = h.relocations_span;
  functions_span = put_at-Spans m.nb_functions m.functions i f h.functions_span;
  functions_whole = put_at-AllAt IsWholeFunction m.functions i f w h.functions_whole;
}

pub set_function-IsWholeModule :
    (m : ModuleData) (i : ℕ) (f : FunctionData)
    → IsWholeFunction f
    → IsWholeModule m
    → IsWholeModule (set_function m i f)
unfolding set_function
set_function-IsWholeModule m i f w h = record {
  calls_span = h.calls_span;
  relocations_span = h.relocations_span;
  functions_span = put_at-Spans m.nb_functions m.functions i f h.functions_span;
  functions_whole = put_at-AllAt IsWholeFunction m.functions i f w h.functions_whole;
}

pub put_module-IsWhole :
    (mon : MonitorData) (i : ℕ) (m : ModuleData)
    → IsWholeModule m
    → IsWhole mon
    → IsWhole (record mon { modules = put_module mon.modules i m })
put_module-IsWhole mon i m w h = record {
  modules_span = put_at-Spans mon.nb_modules mon.modules i m h.modules_span;
  modules_whole = put_at-AllAt IsWholeModule mon.modules i m w h.modules_whole;
}
