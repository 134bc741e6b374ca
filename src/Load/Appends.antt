-- ===== src/Load/Appends.antt =====
-- monitor/src/monitor_load.c: what `monitor_load_module` does to the array of modules.
use picon.Base.{
  ℕ, suc, ◌+◌, ◌-◌, ◌^◌, ◌<◌, ◌≡◌, ◌≢◌, refl, sym, ap, false, ◌==◌, List, [], ◌∷◌, ◌++◌, length,
  some, set, arith, Bool-cases, Option-cases, inl, inr,
}
use picon.Tables.{ModuleData, MonitorData, at}
use picon.Load.Packet.{
  module_begin, terminated, section_function_id, section_function_transition,
  section_block_transition, section_block_ipd, module_end, loading_event_of, LoadingPacket,
  Delivery, null, read_loading_packet, free_loading_packet, contents,
}
use picon.Load.Relocations.{put_module}
use picon.Load.Module.{
  returned_module, fresh_module, begin_module, handle_section, leave_loading, load_section, is_done,
  load_sections, monitor_load_module, modules_kept, modules_counted,
}

leave_loading-keeps :
    (err : ℕ) (pkt : LoadingPacket) (mon mon' : MonitorData) (ds rest : List Delivery)
    → leave_loading err pkt mon ds ≡ returned_module mon' rest
    → mon ≡ mon'
unfolding leave_loading
leave_loading-keeps err pkt mon mon' ds rest h = ground arith

-- The modules end with one module after `ms`.
abbrev pub EndsWithOne : List ModuleData → MonitorData → Type 0
EndsWithOne ms mon =
    (m : ModuleData) × (mon.modules ≡ some (ms ++ m ∷ [])) × (mon.nb_modules ≡ suc (length ms))

set_last :
    (ms : List ModuleData) (m new : ModuleData)
    → set (ms ++ m ∷ []) (length ms) new ≡ ms ++ new ∷ []
set_last [] m new = refl
set_last (x ∷ ms) m new = ap (λ l. x ∷ l) (set_last ms m new)

handle_section-EndsWithOne :
    (d : Delivery) (pkt : LoadingPacket) (ms : List ModuleData) (mon mon' : MonitorData) (err : ℕ)
    → handle_section d pkt mon ≡ some (err, mon')
    → EndsWithOne ms mon
    → EndsWithOne ms mon'
unfolding handle_section
handle_section-EndsWithOne d pkt ms mon mon' err h (m, stored, counted) =
    let at_last : mon.nb_modules - 1 ≡ length ms = omega (arith, counted) in
    elim (Option-cases (loading_event_of pkt.event)) [
      | inl e ↦
          let same : mon ≡ mon' = ground arith in (m, rw (sym same) stored, rw (sym same) counted)
      | inr (e, q) ↦ elim (Option-cases (at mon.modules (mon.nb_modules - 1))) [
        | inl t ↦ absurd (ground arith)
        | inr (last, t) ↦ elim (Option-cases (load_section d.alloc e (contents pkt.value) last)) [
          | inl l ↦ absurd (ground arith)
          | inr ((err', m'), l) ↦
              let next = record mon { modules = put_module mon.modules (mon.nb_modules - 1) m' } in
              let same : next ≡ mon' = ground arith in
              (
                m',
                rw (sym same, stored, at_last) (ap some (set_last ms m m')),
                rw (sym same) counted,
              )
        ]
      ]
    ]

load_sections-EndsWithOne :
    (ds : List Delivery) (err : ℕ) (pkt : LoadingPacket) (ms : List ModuleData)
    (mon mon' : MonitorData) (rest : List Delivery)
    → load_sections ds err pkt mon ≡ returned_module mon' rest
    → EndsWithOne ms mon
    → EndsWithOne ms mon'
unfolding load_sections
load_sections-EndsWithOne [] err pkt ms mon mon' rest h one = elim (Bool-cases (is_done err pkt)) [
  | inl x ↦
      let end : leave_loading err pkt mon [] ≡ returned_module mon' rest = ground arith in
      rw (sym (leave_loading-keeps err pkt mon mon' [] rest end)) one
  | inr x ↦ elim (Option-cases (free_loading_packet pkt)) [
    | inl t ↦ absurd (ground arith)
    | inr (q, t) ↦ absurd (ground arith)
  ]
]
load_sections-EndsWithOne (d ∷ ds) err pkt ms mon mon' rest h one =
    elim (Bool-cases (is_done err pkt)) [
      | inl x ↦
          let end : leave_loading err pkt mon (d ∷ ds) ≡ returned_module mon' rest = ground arith in
          rw (sym (leave_loading-keeps err pkt mon mon' (d ∷ ds) rest end)) one
      | inr x ↦ elim (Option-cases (free_loading_packet pkt)) [
        | inl t ↦ absurd (ground arith)
        | inr (pkt', t) ↦
            let r = read_loading_packet d (err, pkt') in
            elim (Bool-cases (r.0 == 0)) [
              | inr z ↦
                  let end : leave_loading 4 r.1 mon ds ≡ returned_module mon' rest = ground arith in
                  rw (sym (leave_loading-keeps 4 r.1 mon mon' ds rest end)) one
              | inl z ↦ elim (Option-cases (handle_section d r.1 mon)) [
                | inl l ↦ absurd (ground arith)
                | inr ((err'', mon''), l) ↦
                    let next : load_sections ds err'' r.1 mon'' ≡ returned_module mon' rest =
                      ground arith in
                    load_sections-EndsWithOne ds err'' r.1 ms mon'' mon' rest next
                      (handle_section-EndsWithOne d r.1 ms mon mon'' err'' l one)
              ]
            ]
      ]
    ]

leave_loading_fails :
    (err : ℕ) (pkt : LoadingPacket) (mon mon' : MonitorData) (ds rest : List Delivery)
    → err ≢ 0
    → leave_loading err pkt mon ds ≢ returned_module mon' rest
unfolding leave_loading
leave_loading_fails err pkt mon mon' ds rest bad h = ground arith

load_sections_fails :
    (ds : List Delivery) (err : ℕ) (pkt : LoadingPacket) (mon mon' : MonitorData)
    (rest : List Delivery)
    → err ≢ 0
    → load_sections ds err pkt mon ≢ returned_module mon' rest
unfolding load_sections
load_sections_fails [] err pkt mon mon' rest bad h =
    let done : (err == 0) ≡ false = ground arith in
    leave_loading_fails err pkt mon mon' [] rest bad (ground arith)
load_sections_fails (d ∷ ds) err pkt mon mon' rest bad h =
    let done : (err == 0) ≡ false = ground arith in
    leave_loading_fails err pkt mon mon' (d ∷ ds) rest bad (ground arith)

modules_counted_next :
    (mon : MonitorData) → mon.nb_modules + 1 < 2 ^ 32 → modules_counted mon ≡ suc mon.nb_modules
modules_counted_next mon small = ground arith

begin_module-EndsWithOne :
    (d : Delivery) (mon : MonitorData)
    → length (modules_kept mon) ≡ mon.nb_modules
    → mon.nb_modules + 1 < 2 ^ 32
    → (begin_module d mon).0 ≡ 0
    → EndsWithOne (modules_kept mon) (begin_module d mon).1
unfolding begin_module
begin_module-EndsWithOne d mon counted small h = elim (Bool-cases d.modules_allocated) [
  | inl a ↦ (
    fresh_module,
    rw (begin_module, a) refl,
    rw (begin_module, a, counted) (modules_counted_next mon small),
  )
  | inr a ↦ absurd (ground arith)
]

-- When the array of modules has as many cells as are counted, the count does not wrap, and the
-- loading of a module returns 0, the array is the old one with one module after it, and the count
-- is one more.
pub module_appended :
    (event : ℕ) (mon mon' : MonitorData) (ds rest : List Delivery)
    → length (modules_kept mon) ≡ mon.nb_modules
    → mon.nb_modules + 1 < 2 ^ 32
    → monitor_load_module event mon ds ≡ returned_module mon' rest
    → EndsWithOne (modules_kept mon) mon'
unfolding monitor_load_module
module_appended event mon mon' [] rest counted small h = absurd (ground arith)
module_appended event mon mon' (d ∷ ds) rest counted small h =
    let r = read_loading_packet d (0, record { event = event; size = 0; value = null }) in
    let refused : load_sections ds 5 r.1 mon ≢ returned_module mon' rest =
      load_sections_fails ds 5 r.1 mon mon' rest (λ q. ground arith) in
    elim (Bool-cases (r.0 == 0)) [
      | inr z ↦
          absurd (leave_loading_fails r.0 r.1 mon mon' ds rest (λ q. ground arith) (ground arith))
      | inl z ↦ elim (Option-cases (loading_event_of r.1.event)) [
        | inr (module_begin, e) ↦
            let b = begin_module d mon in
            let loop : load_sections ds b.0 r.1 b.1 ≡ returned_module mon' rest = ground arith in
            elim (Bool-cases (b.0 == 0)) [
              | inl begun ↦
                  load_sections-EndsWithOne ds b.0 r.1 (modules_kept mon) b.1 mon' rest loop
                    (begin_module-EndsWithOne d mon counted small (ground arith))
              | inr refused ↦
                  absurd (load_sections_fails ds b.0 r.1 b.1 mon' rest (λ q. ground arith) loop)
            ]
        | inr (terminated, e) ↦ absurd (ground arith)
        | inl e ↦ absurd (refused (ground arith))
        | inr (section_function_id, e) ↦ absurd (refused (ground arith))
        | inr (section_function_transition, e) ↦ absurd (refused (ground arith))
        | inr (section_block_transition, e) ↦ absurd (refused (ground arith))
        | inr (section_block_ipd, e) ↦ absurd (refused (ground arith))
        | inr (module_end, e) ↦ absurd (refused (ground arith))
      ]
    ]
