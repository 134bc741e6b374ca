-- ===== src/Session/Whole.antt =====
-- monitor/src/monitor_load.c: through a whole session of `monitor_load` the arrays of the tables
-- are as long as they are counted, and `monitor_data_free` then frees them without a fault.
use picon.Base.{
  ℕ, zero, suc, ◌+◌, ◌-◌, ◌≤◌, ◌<◌, ◌≡◌, refl, sym, Bool, true, ◌==◌, List, [], ◌∷◌, ◌++◌, length,
  length-append, set, Option, none, some, arith, Bool-cases, Option-cases, inl, inr,
}
use mathlib.Core.Path.{subst}
use picon.Ids.{module_function}
use picon.Tables.{ModuleData, MonitorData, at}
use picon.Load.Packet.{
  LoadingEvent, module_begin, section_function_id, section_function_transition,
  section_block_transition, section_block_ipd, module_end, terminated, loading_event_of,
  LoadingPacket, Delivery, contents,
}
use picon.Load.Module.{
  fresh_module, begin_module, modules_kept, modules_counted, load_section, handle_section,
}
use picon.Load.Relocations.{put_module, set_relocation, relocate, compute_relocations_of_module}
use picon.Load.Resolved.{relocate-Next, own, found, missing, stops}
use picon.Load.Free.{monitor_data_free}
use picon.Load.FreeWhole.{monitor_data_free_lem}
use picon.Load.Rule.{All}
use picon.Load.Whole.{Spans, AllAt, AllAt-at, set-Spans, IsWholeModule, IsWhole, put_module-IsWhole}
use picon.Load.WholeSections.{
  load_section_function_id-IsWholeModule, load_section_function_transition-IsWholeModule,
}
use picon.Load.WholeBlocks.{
  load_section_block_transition-IsWholeModule, load_section_block_ipd-IsWholeModule,
}
use picon.Session.{Options, Client, returned, monitor_load}
use picon.Session.Rule.{Ends, load_modules-Ends}

-- The allocations for a packet succeed.
pub record Allocates (d : Delivery) : Type 0 where
  pub modules_allocate : d.modules_allocated ≡ true
  pub sections_allocate : (k : ℕ) → d.alloc k ≡ true

load_section-IsWholeModule :
    (d : Delivery) (e : LoadingEvent) (value : List ℕ) (m m' : ModuleData) (c : ℕ)
    → Allocates d
    → load_section d.alloc e value m ≡ some (c, m')
    → IsWholeModule m
    → IsWholeModule m'
unfolding load_section
load_section-IsWholeModule d section_function_id value m m' c a h w =
    load_section_function_id-IsWholeModule d.alloc a.sections_allocate value m m' c h w
load_section-IsWholeModule d section_function_transition value m m' c a h w =
    load_section_function_transition-IsWholeModule d.alloc a.sections_allocate value m m' c h w
load_section-IsWholeModule d section_block_transition value m m' c a h w =
    load_section_block_transition-IsWholeModule d.alloc a.sections_allocate value m m' c h w
load_section-IsWholeModule d section_block_ipd value m m' c a h w =
    load_section_block_ipd-IsWholeModule value m m' c h w
load_section-IsWholeModule d module_end value m m' c a h w =
    let same : m ≡ m' = ground arith in rw (sym same) w
load_section-IsWholeModule d module_begin value m m' c a h w =
    let same : m ≡ m' = ground arith in rw (sym same) w
load_section-IsWholeModule d terminated value m m' c a h w =
    let same : m ≡ m' = ground arith in rw (sym same) w

handle_section-IsWhole :
    (d : Delivery) (pkt : LoadingPacket) (mon mon' : MonitorData) (err : ℕ)
    → Allocates d
    → IsWhole mon
    → handle_section d pkt mon ≡ some (err, mon')
    → IsWhole mon'
unfolding handle_section
handle_section-IsWhole d pkt mon mon' err a w h =
    let last = (mon.nb_modules - 1) in
    elim (Option-cases (loading_event_of pkt.event)) [
      | inl e ↦ let same : mon ≡ mon' = ground arith in rw (sym same) w
      | inr (e, q) ↦ elim (Option-cases (at mon.modules last)) [
        | inl t ↦ absurd (ground arith)
        | inr (m, t) ↦ elim (Option-cases (load_section d.alloc e (contents pkt.value) m)) [
          | inl l ↦ absurd (ground arith)
          | inr ((c, m'), l) ↦
              let next = record mon { modules = put_module mon.modules last m' } in
              let same : next ≡ mon' = ground arith in
              let whole = AllAt-at IsWholeModule mon.modules last m w.modules_whole t in
              rw (sym same) (
                put_module-IsWhole mon last m'
                  (load_section-IsWholeModule d e (contents pkt.value) m m' c a l whole) w)
        ]
      ]
    ]

All-append {ℓ κ} :
    {A : Type ℓ} (P : A → Type κ) (xs ys : List A) → All P xs → All P ys → All P (xs ++ ys)
All-append P [] ys h k = k
All-append P (x ∷ xs) ys h k = (h.0, All-append P xs ys h.1 k)

kept_whole :
    (n : ℕ) (p : Option (List ModuleData))
    → Spans n p
    → AllAt IsWholeModule p
    → let mon : MonitorData = record { nb_modules = n; modules = p } in
      (modules_counted mon ≤ suc (length (modules_kept mon))) × All IsWholeModule (modules_kept mon)
kept_whole n none s a = elim (Bool-cases (n == 0)) [
  | inl z ↦ rw z (omega arith, tt)
  | inr z ↦ absurd (ground arith)
]
kept_whole n (some ms) s a = elim (Bool-cases (n == 0)) [
  | inl z ↦ rw z (omega arith, tt)
  | inr z ↦ rw z (omega arith, a)
]

begin_module-IsWhole :
    (d : Delivery) (mon : MonitorData) → Allocates d → IsWhole mon → IsWhole (begin_module d mon).1
unfolding begin_module
begin_module-IsWhole d mon a w =
    let (counted, whole) = kept_whole mon.nb_modules mon.modules w.modules_span w.modules_whole in
    rw (begin_module, a.modules_allocate)
      (record {
        modules_span = omega (arith, counted, length-append (modules_kept mon) (fresh_module ∷ []));
        modules_whole = All-append IsWholeModule (modules_kept mon) (fresh_module ∷ []) whole (
          record {
            calls_span = refl;
            relocations_span = refl;
            functions_span = refl;
            functions_whole = tt;
          },
          tt,
        );
      })

set_relocation-Spans :
    (n : ℕ) (relocs : Option (List ℕ)) (j r : ℕ) (relocs' : Option (List ℕ))
    → set_relocation relocs j r ≡ some relocs'
    → Spans n relocs
    → Spans n relocs'
set_relocation-Spans n none j r relocs' h s = absurd (ground arith)
set_relocation-Spans n (some rs) j r relocs' h s =
    let same : some (set rs j r) ≡ relocs' = ground arith in rw (sym same) (set-Spans n rs j r s)

relocate-Spans :
    (mon : MonitorData) (mi : ModuleData) (mid : ℕ) (fatal : Bool) (n rounds j : ℕ)
    (relocs relocs' : Option (List ℕ)) (c : ℕ)
    → relocate mon mi mid fatal rounds j relocs ≡ some (c, relocs')
    → Spans n relocs
    → Spans n relocs'
unfolding relocate
relocate-Spans mon mi mid fatal n zero j relocs relocs' c h s =
    let same : relocs ≡ relocs' = ground arith in rw (sym same) s
relocate-Spans mon mi mid fatal n (suc rounds) j relocs relocs' c h s =
    elim (relocate-Next mon mi mid fatal rounds j relocs relocs' c h) [
      | own f e x next ↦ relocate-Spans mon mi mid fatal n rounds (j + 1) relocs relocs' c next s
      | found f k l rs e q t next ↦
          relocate-Spans mon mi mid fatal n rounds (j + 1) rs relocs' c next
            (set_relocation-Spans n relocs j (module_function k l) rs t s)
      | missing q next ↦ relocate-Spans mon mi mid fatal n rounds (j + 1) relocs relocs' c next s
      | stops q same ↦ rw same s
    ]

compute_relocations-IsWhole :
    (mon mon' : MonitorData) (mid : ℕ) (fatal : Bool) (err : ℕ)
    → IsWhole mon
    → compute_relocations_of_module mon mid fatal ≡ some (err, mon')
    → IsWhole mon'
unfolding compute_relocations_of_module
compute_relocations-IsWhole mon mon' mid fatal err w h = elim (Option-cases (at mon.modules mid)) [
  | inl e ↦ absurd (ground arith)
  | inr (mi, e) ↦ elim (Option-cases (relocate mon mi mid fatal mi.nb_functions 0 mi.relocations)) [
    | inl r ↦ absurd (ground arith)
    | inr ((c, relocs), r) ↦
        let mi' = record mi { relocations = relocs } in
        let next = record mon { modules = put_module mon.modules mid mi' } in
        let same : next ≡ mon' = ground arith in
        let whole = AllAt-at IsWholeModule mon.modules mid mi w.modules_whole e in
        rw (sym same) (
          put_module-IsWhole mon mid mi'
            (record {
              calls_span = whole.calls_span;
              relocations_span =
                  relocate-Spans mon mi mid fatal mi.nb_functions mi.nb_functions 0 mi.relocations
                    relocs c r whole.relocations_span;
              functions_span = whole.functions_span;
              functions_whole = whole.functions_whole;
            })
            w)
  ]
]

-- Where the allocations for the packets succeed, a session that returns, with whatever value,
-- leaves tables whose arrays are as long as they are counted, and these are freed without a
-- fault.
pub session_freed :
    (options : Options) (fuel event : ℕ) (ds : List Delivery) (cs cs' : List Client) (err : ℕ)
    (mon : MonitorData)
    → length ds < fuel
    → All Allocates ds
    → monitor_load options fuel event ds cs ≡ returned err mon cs'
    → IsWhole mon
      × ((mon' : MonitorData) × (monitor_data_free mon ≡ some mon') × (mon'.nb_modules ≡ 0))
unfolding monitor_load
session_freed options fuel event ds cs cs' err mon l a h =
    let start : MonitorData = record { nb_modules = 0; modules = none } in
    let ends =
      load_modules-Ends options IsWhole Allocates handle_section-IsWhole begin_module-IsWhole
        compute_relocations-IsWhole fuel event start ds cs l
        (record { modules_span = refl; modules_whole = tt }) a in
    let w : IsWhole mon = subst (λ s. Ends IsWhole s) (h) ends in (w, monitor_data_free_lem mon w)
