-- ===== src/Load/Rule.antt =====
-- monitor/src/monitor_load.c: a rule for what `monitor_load_module` keeps, wherever it returns.
use picon.Base.{
  ℕ, suc, ◌≤◌, ◌≡◌, refl, ◌==◌, List, [], ◌∷◌, length, some, arith, Bool-cases, Option-cases, inl,
  inr,
}
use picon.Tables.{MonitorData}
use picon.Load.Packet.{
  module_begin, terminated, section_function_id, section_function_transition,
  section_block_transition, section_block_ipd, module_end, loading_event_of, LoadingPacket,
  Delivery, null, read_loading_packet, free_loading_packet,
}
use picon.Load.Module.{
  Loading, returned_module, returned_terminated, returned_failure, blocked, crashed, begin_module,
  handle_section, leave_loading, is_done, load_sections, monitor_load_module,
}

-- What holds where the loading returns: of a module (`Q`), at the end or on a failure (`R`).
abbrev pub Returns {ℓ} : (Q R : MonitorData → List Delivery → Type ℓ) → Loading → Type ℓ
Returns Q R (returned_module mon ds) = Q mon ds
Returns Q R (returned_terminated mon ds) = R mon ds
Returns Q R (returned_failure mon ds) = R mon ds
Returns Q R (blocked mon) = Unit
Returns Q R crashed = Unit

abbrev pub All {ℓ κ} : {A : Type ℓ} → (A → Type κ) → List A → Type κ
All P [] = Unit
All P (x ∷ xs) = P x × All P xs

pub monitor_load_module-nil :
    (event : ℕ) (mon : MonitorData) → monitor_load_module event mon [] ≡ blocked mon
unfolding monitor_load_module
monitor_load_module-nil event mon = refl

module _ {ℓ} (P : MonitorData → Type ℓ) (D : Delivery → Type ℓ)
    (handles : (d : Delivery) (pkt : LoadingPacket) (mon mon' : MonitorData) (err : ℕ)
      → D d
      → P mon
      → handle_section d pkt mon ≡ some (err, mon')
      → P mon') where
  -- The tables keep `P`, and what is left of `n` packets keeps `D`.
  abbrev pub Keeps : ℕ → MonitorData → List Delivery → Type ℓ
  Keeps n mon ds = P mon × All D ds × (length ds ≤ n)

  leave_loading-Returns :
      (err : ℕ) (pkt : LoadingPacket) (mon : MonitorData) (ds : List Delivery) (n : ℕ)
      → Keeps n mon ds
      → Returns (Keeps n) (Keeps n) (leave_loading err pkt mon ds)
  unfolding leave_loading
  leave_loading-Returns err pkt mon ds n k = elim (Option-cases (free_loading_packet pkt)) [
    | inl e ↦ rw (leave_loading, e) tt
    | inr (q, e) ↦ elim (Bool-cases (err == 0)) [
      | inl z ↦ rw (leave_loading, e, z) k
      | inr z ↦ rw (leave_loading, e, z) k
    ]
  ]

  load_sections-Returns :
      (ds : List Delivery) (err : ℕ) (pkt : LoadingPacket) (mon : MonitorData) (n : ℕ)
      → Keeps n mon ds
      → Returns (Keeps n) (Keeps n) (load_sections ds err pkt mon)
  unfolding load_sections
  load_sections-Returns [] err pkt mon n k = elim (Bool-cases (is_done err pkt)) [
    | inl x ↦ rw (load_sections, x) (leave_loading-Returns err pkt mon [] n k)
    | inr x ↦ elim (Option-cases (free_loading_packet pkt)) [
      | inl t ↦ rw (load_sections, x, t) tt
      | inr (q, t) ↦ rw (load_sections, x, t) tt
    ]
  ]
  load_sections-Returns (d ∷ ds) err pkt mon n (p, a, l) = elim (Bool-cases (is_done err pkt)) [
    | inl x ↦ rw (load_sections, x) (leave_loading-Returns err pkt mon (d ∷ ds) n (p, a, l))
    | inr x ↦ elim (Option-cases (free_loading_packet pkt)) [
      | inl t ↦ rw (load_sections, x, t) tt
      | inr (pkt', t) ↦
          let r = read_loading_packet d (err, pkt') in
          elim (Bool-cases (r.0 == 0)) [
            | inr z ↦
                rw (load_sections, x, t, z)
                  (leave_loading-Returns 4 r.1 mon ds n (p, a.1, omega (arith, l)))
            | inl z ↦ elim (Option-cases (handle_section d r.1 mon)) [
              | inl s ↦ rw (load_sections, x, t, z, s) tt
              | inr ((err', mon'), s) ↦
                  rw (load_sections, x, t, z, s)
                    (load_sections-Returns ds err' r.1 mon' n
                      (handles d r.1 mon mon' err' a.0 p s, a.1, omega (arith, l)))
            ]
          ]
    ]
  ]

  module _
      (begins : (d : Delivery) (mon : MonitorData) → D d → P mon → P (begin_module d mon).1) where
    pub monitor_load_module-Returns :
        (event : ℕ) (mon : MonitorData) (ds : List Delivery) (n : ℕ)
        → P mon
        → All D ds
        → length ds ≤ suc n
        → Returns (Keeps n) (Keeps n) (monitor_load_module event mon ds)
    unfolding monitor_load_module
    monitor_load_module-Returns event mon [] n p a l = tt
    monitor_load_module-Returns event mon (d ∷ ds) n p a l =
        let dst : LoadingPacket = record { event = event; size = 0; value = null } in
        let r = read_loading_packet d (0, dst) in
        let kept : Keeps n mon ds = (p, a.1, omega (arith, l)) in
        let other = load_sections-Returns ds 5 r.1 mon n kept in
        elim (Bool-cases (r.0 == 0)) [
          | inr z ↦ rw (monitor_load_module, z) (leave_loading-Returns r.0 r.1 mon ds n kept)
          | inl z ↦ elim (Option-cases (loading_event_of r.1.event)) [
            | inr (module_begin, e) ↦
                let b = begin_module d mon in
                rw (monitor_load_module, z, e)
                  (load_sections-Returns ds b.0 r.1 b.1 n
                    (begins d mon a.0 p, a.1, omega (arith, l)))
            | inr (terminated, e) ↦ elim (Option-cases (free_loading_packet r.1)) [
              | inl t ↦ rw (monitor_load_module, z, e, t) tt
              | inr (q, t) ↦ rw (monitor_load_module, z, e, t) kept
            ]
            | inl e ↦ rw (monitor_load_module, z, e) other
            | inr (section_function_id, e) ↦ rw (monitor_load_module, z, e) other
            | inr (section_function_transition, e) ↦ rw (monitor_load_module, z, e) other
            | inr (section_block_transition, e) ↦ rw (monitor_load_module, z, e) other
            | inr (section_block_ipd, e) ↦ rw (monitor_load_module, z, e) other
            | inr (module_end, e) ↦ rw (monitor_load_module, z, e) other
          ]
        ]
