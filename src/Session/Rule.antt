-- ===== src/Session/Rule.antt =====
-- monitor/src/monitor_load.c, `monitor_load`: it ends, and a rule for what it keeps where it
-- returns.
use picon.Base.{
  ℕ, zero, suc, ◌+◌, ◌-◌, ◌%◌, ◌^◌, ◌<◌, ◌≡◌, ◌≢◌, sym, refl, Bool, true, false, ◌==◌, List, [],
  ◌∷◌, length, none, some, arith, Bool-cases, Option-cases, inl, inr,
}
use picon.Tables.{MonitorData}
use picon.Load.Packet.{LoadingPacket, Delivery}
use picon.Load.Module.{
  Loading, returned_module, returned_terminated, returned_failure, blocked, crashed, begin_module,
  handle_section, monitor_load_module,
}
use picon.Load.Relocations.{compute_relocations_of_module}
use picon.Load.Rule.{Returns, All, Keeps, monitor_load_module-nil, monitor_load_module-Returns}
use picon.Session.{
  Options, Client, Runs, ran, waits, faults, Session, returned, waiting, faulted, out_of_fuel,
  relocate_all, finish_loading, start_module, load_modules, monitor_load,
}

-- What holds of the tables where the session returns; it does not run out of fuel.
abbrev pub Ends : (MonitorData → Type 0) → Session → Type 0
Ends P (returned err mon cs) = P mon
Ends P waiting = Unit
Ends P faulted = Unit
Ends P out_of_fuel = ⊥

module _ (options : Options) (P : MonitorData → Type 0) (D : Delivery → Type 0)
    (handles : (d : Delivery) (pkt : LoadingPacket) (mon mon' : MonitorData) (err : ℕ)
      → D d
      → P mon
      → handle_section d pkt mon ≡ some (err, mon')
      → P mon')
    (begins : (d : Delivery) (mon : MonitorData) → D d → P mon → P (begin_module d mon).1)
    (relocates : (mon mon' : MonitorData) (mid : ℕ) (fatal : Bool) (err : ℕ)
      → P mon
      → compute_relocations_of_module mon mid fatal ≡ some (err, mon')
      → P mon') where
  relocate_all_keeps :
      (rounds i : ℕ) (mon mon' : MonitorData) (err : ℕ)
      → P mon
      → relocate_all options rounds i mon ≡ some (err, mon')
      → P mon'
  unfolding relocate_all
  relocate_all_keeps zero i mon mon' err p h =
      let same : mon ≡ mon' = ground arith in rw (sym same) p
  relocate_all_keeps (suc rounds) i mon mon' err p h =
      elim (Option-cases (compute_relocations_of_module mon (i % 2 ^ 16) true)) [
        | inl e ↦ absurd (ground arith)
        | inr ((err', next), e) ↦
            let q = relocates mon next (i % 2 ^ 16) true err' p e in
            elim (Bool-cases (err' == 0)) [
              | inl z ↦ relocate_all_keeps rounds (i + 1) next mon' err q (ground arith)
              | inr z ↦ let same : next ≡ mon' = ground arith in rw (sym same) q
            ]
      ]

  finish_loading-Ends :
      (mon : MonitorData) (cs : List Client) → P mon → Ends P (finish_loading options mon cs)
  unfolding finish_loading
  finish_loading-Ends mon cs p = elim (Option-cases (relocate_all options mon.nb_modules 0 mon)) [
    | inl e ↦ rw (finish_loading, e) tt
    | inr ((err, mon'), e) ↦
        rw (finish_loading, e) (relocate_all_keeps mon.nb_modules 0 mon mon' err p e)
  ]

  start_module_keeps :
      (mon mon' : MonitorData) (cs : List Client) (r : Runs)
      → P mon
      → start_module options mon cs ≡ some (mon', r)
      → P mon'
  unfolding start_module
  start_module_keeps mon mon' cs r p h =
      let last = (mon.nb_modules - 1) in
      elim (Option-cases (compute_relocations_of_module mon (last % 2 ^ 16) false)) [
        | inl e ↦ absurd (ground arith)
        | inr ((err, next), e) ↦
            let same : next ≡ mon' = ground arith in
            rw (sym same) (relocates mon next (last % 2 ^ 16) false err p e)
      ]

  -- After one module, where the rest of the session ends as the rule says.
  after_module :
      (fuel : ℕ)
      (rest : (event : ℕ) (mon : MonitorData) (ds : List Delivery) (cs : List Client)
        → length ds < fuel
        → P mon
        → All D ds
        → Ends P (load_modules options fuel event mon ds cs))
      (event : ℕ) (mon : MonitorData) (ds : List Delivery) (cs : List Client) (n : ℕ)
      → n < fuel
      → (o : Loading) → monitor_load_module event mon ds ≡ o
      → Returns (Keeps P D handles n) (Keeps P D handles n) o
      → Ends P (load_modules options (suc fuel) event mon ds cs)
  unfolding load_modules
  after_module fuel rest event mon ds cs n l (returned_failure mon' ds') e r =
      rw (load_modules, e) r.0
  after_module fuel rest event mon ds cs n l (returned_terminated mon' ds') e r =
      rw (load_modules, e) (finish_loading-Ends mon' cs r.0)
  after_module fuel rest event mon ds cs n l (blocked mon') e r = rw (load_modules, e) tt
  after_module fuel rest event mon ds cs n l crashed e r = rw (load_modules, e) tt
  after_module fuel rest event mon ds cs n l (returned_module mon' ds') e r =
      elim (Option-cases (start_module options mon' cs)) [
        | inl s ↦ rw (load_modules, e, s) tt
        | inr ((mon'', waits), s) ↦ rw (load_modules, e, s) tt
        | inr ((mon'', faults), s) ↦ rw (load_modules, e, s) tt
        | inr ((mon'', ran err cs'), s) ↦
            let q = start_module_keeps mon' mon'' cs (ran err cs') r.0 s in
            elim (Bool-cases (err == 0)) [
              | inl z ↦
                  rw (load_modules, e, s, z)
                    (rest event mon'' ds' cs' (omega (arith, l, r.2)) q r.1)
              | inr z ↦ rw (load_modules, e, s, z) q
            ]
      ]

  -- The session ends, in as much fuel as there are packets and one more, and keeps `P`.
  pub load_modules-Ends :
      (fuel event : ℕ) (mon : MonitorData) (ds : List Delivery) (cs : List Client)
      → length ds < fuel
      → P mon
      → All D ds
      → Ends P (load_modules options fuel event mon ds cs)
  unfolding load_modules
  load_modules-Ends zero event mon ds cs l p a = absurd (omega arith)
  load_modules-Ends (suc fuel) event mon [] cs l p a =
      rw (load_modules, monitor_load_module-nil event mon) tt
  load_modules-Ends (suc fuel) event mon (d ∷ ds) cs l p a =
      after_module fuel (load_modules-Ends fuel) event mon (d ∷ ds) cs (length ds)
        (omega (arith, l)) (monitor_load_module event mon (d ∷ ds)) refl
        (monitor_load_module-Returns P D handles begins event mon (d ∷ ds) (length ds) p a
          (omega arith))

All-trivial : (ds : List Delivery) → All (λ d. Unit {0}) ds
All-trivial [] = tt
All-trivial (d ∷ ds) = (tt, All-trivial ds)

Ends-fuel : (P : MonitorData → Type 0) (s : Session) → Ends P s → s ≢ out_of_fuel
Ends-fuel P (returned err mon cs) h e = cc
Ends-fuel P waiting h e = cc
Ends-fuel P faulted h e = cc
Ends-fuel P out_of_fuel h e = h

-- The loop of `monitor_load` ends: with more fuel than there are packets it does not run out of it,
-- whatever the packets hold, the allocator answers and the client sends.
pub monitor_load_terminates :
    (options : Options) (fuel event : ℕ) (ds : List Delivery) (cs : List Client)
    → length ds < fuel
    → monitor_load options fuel event ds cs ≢ out_of_fuel
unfolding monitor_load
monitor_load_terminates options fuel event ds cs l =
    Ends-fuel (λ mon. Unit) (monitor_load options fuel event ds cs)
      (load_modules-Ends options (λ mon. Unit) (λ d. Unit) (λ d pkt mon mon' err x y h. tt)
        (λ d mon x y. tt) (λ mon mon' mid fatal err x h. tt) fuel event
        (record { nb_modules = 0; modules = none }) ds cs l tt (All-trivial ds))
