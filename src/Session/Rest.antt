-- ===== src/Session/Rest.antt =====
-- monitor/src/monitor_load.c, `monitor_load`: the runs that a session leaves to its caller.
use picon.Base.{
  ℕ, zero, suc, ◌-◌, ◌%◌, ◌^◌, ◌≡◌, refl, ◌∙◌, sym, ap, false, ◌==◌, List, [], ◌++◌, none, some,
  arith, Bool-cases, Option-cases, inl, inr,
}
use mathlib.Core.List.{append_assoc}
use picon.Tables.{MonitorData, at}
use picon.Load.Packet.{Delivery}
use picon.Load.Module.{
  Loading, returned_module, returned_terminated, returned_failure, blocked, crashed,
  monitor_load_module,
}
use picon.Load.Relocations.{compute_relocations_of_module}
use picon.Session.{
  Options, Client, ran, waits, faults, returned, finish_loading, start_module, load_modules,
  monitor_load,
}
use picon.Session.Row.{run_clients_rest}

-- The runs that are left are the last ones.
abbrev pub Leaves : List Client → List Client → Type 0
Leaves cs cs' = (done : List Client) × (cs ≡ done ++ cs')

Leaves-trans : (a b c : List Client) → Leaves a b → Leaves b c → Leaves a c
Leaves-trans a b c (x, p) (y, q) = (x ++ y, p ∙ ap (λ l. x ++ l) q ∙ sym (append_assoc x y c))

module _ (options : Options) where
  finish_loading_rest :
      (mon mon' : MonitorData) (cs cs' : List Client) (err : ℕ)
      → finish_loading options mon cs ≡ returned err mon' cs'
      → cs ≡ cs'
  unfolding finish_loading
  finish_loading_rest mon mon' cs cs' err h = ground arith

  start_module_rest :
      (mon mon' : MonitorData) (cs cs' : List Client) (err : ℕ)
      → start_module options mon cs ≡ some (mon', ran err cs')
      → Leaves cs cs'
  unfolding start_module
  start_module_rest mon mon' cs cs' err h =
      let last = (mon.nb_modules - 1) in
      elim (Option-cases (compute_relocations_of_module mon (last % 2 ^ 16) false)) [
        | inl e ↦ absurd (ground arith)
        | inr ((k, next), e) ↦ elim (Bool-cases (k == 0)) [
          | inr z ↦ ([], ground arith)
          | inl z ↦ elim (Option-cases (at next.modules last)) [
            | inl f ↦ absurd (ground arith)
            | inr (m, f) ↦
                run_clients_rest options next m.nb_entrypoint_inits cs cs' err (ground arith)
          ]
        ]
      ]

  module_rest :
      (fuel : ℕ)
      (rest : (event : ℕ) (mon mon' : MonitorData) (ds : List Delivery) (cs cs' : List Client)
          (err : ℕ)
        → load_modules options fuel event mon ds cs ≡ returned err mon' cs'
        → Leaves cs cs')
      (event : ℕ) (mon mon' : MonitorData) (ds : List Delivery) (cs cs' : List Client) (err : ℕ)
      (o : Loading)
      → monitor_load_module event mon ds ≡ o
      → load_modules options (suc fuel) event mon ds cs ≡ returned err mon' cs'
      → Leaves cs cs'
  unfolding load_modules
  module_rest fuel rest event mon mon' ds cs cs' err (returned_failure m ds') e h =
      ([], ground arith)
  module_rest fuel rest event mon mon' ds cs cs' err (returned_terminated m ds') e h =
      ([], finish_loading_rest m mon' cs cs' err (ground arith))
  module_rest fuel rest event mon mon' ds cs cs' err (blocked m) e h = absurd (ground arith)
  module_rest fuel rest event mon mon' ds cs cs' err crashed e h = absurd (ground arith)
  module_rest fuel rest event mon mon' ds cs cs' err (returned_module m ds') e h =
      elim (Option-cases (start_module options m cs)) [
        | inl s ↦ absurd (ground arith)
        | inr ((m', waits), s) ↦ absurd (ground arith)
        | inr ((m', faults), s) ↦ absurd (ground arith)
        | inr ((m', ran k left), s) ↦
            let first = start_module_rest m m' cs left k s in
            elim (Bool-cases (k == 0)) [
              | inl z ↦
                  Leaves-trans cs left cs' first
                    (rest event m' mon' ds' left cs' err (ground arith))
              | inr z ↦ let same : left ≡ cs' = ground arith in rw (sym same) first
            ]
      ]

  load_modules_rest :
      (fuel event : ℕ) (mon mon' : MonitorData) (ds : List Delivery) (cs cs' : List Client)
      (err : ℕ)
      → load_modules options fuel event mon ds cs ≡ returned err mon' cs'
      → Leaves cs cs'
  unfolding load_modules
  load_modules_rest zero event mon mon' ds cs cs' err h = absurd (ground arith)
  load_modules_rest (suc fuel) event mon mon' ds cs cs' err h =
      module_rest fuel (load_modules_rest fuel) event mon mon' ds cs cs' err
        (monitor_load_module event mon ds) refl h

  pub monitor_load_rest :
      (fuel event : ℕ) (mon : MonitorData) (ds : List Delivery) (cs cs' : List Client) (err : ℕ)
      → monitor_load options fuel event ds cs ≡ returned err mon cs'
      → Leaves cs cs'
  unfolding monitor_load
  monitor_load_rest fuel event mon ds cs cs' err h =
      load_modules_rest fuel event (record { nb_modules = 0; modules = none }) mon ds cs cs' err h
