-- ===== src/Load/Module.antt =====
-- monitor/src/monitor_load.c, `monitor_load_module`. The graphs that OPTION_sm_dump prints are left
-- out.
use picon.Base.{
  ℕ, Bool, true, false, not, ◌||◌, ◌==◌, if◌then◌else◌, ◌+◌, ◌-◌, ◌%◌, ◌^◌, List, [], ◌∷◌, ◌++◌,
  Option, none, some,
}
use picon.Tables.{ModuleData, MonitorData, at}
use picon.Load.Packet.{
  LoadingEvent, module_begin, section_function_id, section_function_transition,
  section_block_transition, section_block_ipd, module_end, terminated, loading_event_of,
  LoadingPacket, Delivery, null, read_loading_packet, free_loading_packet, contents,
}
use picon.Load.Functions.{load_section_function_id}
use picon.Load.Transitions.{load_section_function_transition}
use picon.Load.Blocks.{load_section_block_transition, load_section_block_ipd}
use picon.Load.Relocations.{put_module}

-- What `monitor_load_module` comes to: a return with its value, the tables and the deliveries that
-- are left; a read that blocks; or a faulty access.
pub data Loading : Type 0 where
  returned_module returned_terminated returned_failure : MonitorData → List Delivery → Loading
  blocked : MonitorData → Loading
  crashed : Loading

-- A module as CFI_LOADING_MODULE_BEGIN sets it.
abbrev pub fresh_module : ModuleData
fresh_module = record {
  nb_functions = 0;
  nb_entrypoint_inits = 0;
  nb_entrypoint_finis = 0;
  call_graph = none;
  relocations = none;
  functions = none;
}

-- `WRITE_MONITOR_TO_LOADING_PACKET(fd,src,err)`, where `err` is 0
abbrev pub write_module_id : Bool → ℕ
write_module_id true = 0
write_module_id false = 1

-- The modules that stay when the array grows, and the count of its cells; `modules` has
-- `nb_modules` cells.
abbrev pub modules_kept : MonitorData → List ModuleData
modules_kept mon = if mon.nb_modules == 0 then [] else elim mon.modules [ none ↦ [] | some ms ↦ ms ]

abbrev pub modules_counted : MonitorData → ℕ
modules_counted mon = if mon.nb_modules == 0 then 1 else (mon.nb_modules + 1) % 2 ^ 32

-- `case CFI_LOADING_MODULE_BEGIN`
unfoldable pub begin_module : Delivery → MonitorData → ℕ × MonitorData
begin_module d mon = elim d.modules_allocated [
  | false ↦ (10, record mon { nb_modules = modules_counted mon; modules = none })
  | true ↦ (
    write_module_id d.written,
    record mon {
      nb_modules = modules_counted mon;
      modules = some (modules_kept mon ++ fresh_module ∷ []);
    },
  )
]

-- The section of a packet, read into a module.
unfoldable pub load_section :
    (ℕ → Bool) → LoadingEvent → List ℕ → ModuleData → Option (ℕ × ModuleData)
load_section alloc section_function_id value m = load_section_function_id alloc value m
load_section alloc section_function_transition value m =
    load_section_function_transition alloc value m
load_section alloc section_block_transition value m = load_section_block_transition alloc value m
load_section alloc section_block_ipd value m = load_section_block_ipd value m
load_section alloc module_end value m = some (0, m)
load_section alloc module_begin value m = some (5, m)
load_section alloc terminated value m = some (5, m)

-- The second `switch`, on the module at `modata`, the last one.
unfoldable pub handle_section : Delivery → LoadingPacket → MonitorData → Option (ℕ × MonitorData)
handle_section d pkt mon = elim (loading_event_of pkt.event) [
  | none ↦ some (5, mon)
  | some e ↦ elim (at mon.modules (mon.nb_modules - 1)) [
    | none ↦ none
    | some m ↦ elim (load_section d.alloc e (contents pkt.value) m) [
      | none ↦ none
      | some (err, m') ↦
          some (err, record mon { modules = put_module mon.modules (mon.nb_modules - 1) m' })
    ]
  ]
]

-- The end of the function, where the module is not terminated.
unfoldable pub leave_loading : ℕ → LoadingPacket → MonitorData → List Delivery → Loading
leave_loading err pkt mon ds = elim (free_loading_packet pkt) [
  | none ↦ crashed
  | some pkt' ↦ elim (err == 0) [ true ↦ returned_module mon ds | false ↦ returned_failure mon ds ]
]

-- The condition under which the loop ends.
abbrev pub is_done : ℕ → LoadingPacket → Bool
is_done err pkt = not (err == 0) || (pkt.event == 5)

-- The loop, one packet in each round.
unfoldable pub load_sections : List Delivery → ℕ → LoadingPacket → MonitorData → Loading
load_sections [] err pkt mon = elim (is_done err pkt) [
  | true ↦ leave_loading err pkt mon []
  | false ↦ elim (free_loading_packet pkt) [ none ↦ crashed | some pkt' ↦ blocked mon ]
]
load_sections (d ∷ ds) err pkt mon = elim (is_done err pkt) [
  | true ↦ leave_loading err pkt mon (d ∷ ds)
  | false ↦ elim (free_loading_packet pkt) [
    | none ↦ crashed
    | some pkt' ↦
        let (err', got) = read_loading_packet d (err, pkt') in
        elim (err' == 0) [
          | false ↦ leave_loading 4 got mon ds
          | true ↦ elim (handle_section d got mon) [
            | none ↦ crashed
            | some (err'', mon') ↦ load_sections ds err'' got mon'
          ]
        ]
  ]
]

-- `monitor_load_module`; `event` is what the packet holds before it is read.
unfoldable pub monitor_load_module : ℕ → MonitorData → List Delivery → Loading
monitor_load_module event mon [] = blocked mon
monitor_load_module event mon (d ∷ ds) =
    let (err, pkt) = read_loading_packet d (0, record { event = event; size = 0; value = null }) in
    elim (err == 0) [
      | false ↦ leave_loading err pkt mon ds
      | true ↦ elim (loading_event_of pkt.event) [
        | some module_begin ↦ let r = begin_module d mon in load_sections ds r.0 pkt r.1
        | some terminated ↦ elim (free_loading_packet pkt) [
          | none ↦ crashed
          | some pkt' ↦ returned_terminated mon ds
        ]
        | _ ↦ load_sections ds 5 pkt mon
      ]
    ]
