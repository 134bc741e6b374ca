-- ===== src/Load/Packet.antt =====
-- include/picon/shared.h: the packets of the loading protocol, as READ_LOADING_PACKET reads them
-- and FREE_LOADING_PACKET frees them.
use picon.Base.{
  ℕ, zero, suc, Bool, true, false, ◌==◌, List, [], ◌++◌, Option, none, some, take, drop, length,
}
use picon.Signal.{le_bytes, le_value}

-- `loading_event`
pub data LoadingEvent : Type 0 where
  module_begin section_function_id section_function_transition section_block_transition :
      LoadingEvent
  section_block_ipd module_end terminated : LoadingEvent

abbrev pub loading_event_of : ℕ → Option LoadingEvent
loading_event_of zero = some module_begin
loading_event_of (suc zero) = some section_function_id
loading_event_of (suc (suc zero)) = some section_function_transition
loading_event_of (suc (suc (suc zero))) = some section_block_transition
loading_event_of (suc (suc (suc (suc zero)))) = some section_block_ipd
loading_event_of (suc (suc (suc (suc (suc zero))))) = some module_end
loading_event_of (suc (suc (suc (suc (suc (suc zero)))))) = some terminated
loading_event_of _ = none

-- The pointer `value`: NULL, to a block with some bytes, or to a block that is freed.
pub data Value : Type 0 where
  null : Value
  live : List ℕ → Value
  dangling : Value

-- `loading_packet`
pub record LoadingPacket : Type 0 where
  pub event : ℕ
  pub size : ℕ
  pub value : Value

-- What the environment does while one packet is read and handled: the bytes that each of the three
-- reads has, whether the value and the array of modules can be allocated, the allocations of the
-- loader of the section, and whether the answer can be written.
pub record Delivery : Type 0 where
  pub event_bytes : List ℕ
  pub size_bytes : List ℕ
  pub value_bytes : List ℕ
  pub value_allocated : Bool
  pub modules_allocated : Bool
  pub alloc : ℕ → Bool
  pub written : Bool

-- `read` into a field of 4 bytes: whether it is whole, and the field, of which a short read
-- overwrites the front.
abbrev pub read_field : List ℕ → ℕ → Bool × ℕ
read_field bytes old =
    let got = take 4 bytes in
    (length got == 4, le_value (got ++ drop (length got) (le_bytes 4 old)))

-- The last `read`, into the block of `size` bytes; a short one frees the block.
unfoldable pub read_value : Delivery → ℕ × LoadingPacket → ℕ × LoadingPacket
read_value d (err, pkt) = elim d.value_allocated [
  | false ↦ (3, pkt)
  | true ↦
      let got = take pkt.size d.value_bytes in
      elim (length got == pkt.size) [
        | true ↦ (err, record pkt { value = live got })
        | false ↦ (4, record pkt { size = 0; value = dangling })
      ]
]

-- `READ_LOADING_PACKET(fd,dst,err)`
unfoldable pub read_loading_packet : Delivery → ℕ × LoadingPacket → ℕ × LoadingPacket
read_loading_packet d (err, dst) =
    let (whole, event) = read_field d.event_bytes dst.event in
    let pkt : LoadingPacket = record { event = event; size = 0; value = null } in
    elim whole [
      | false ↦ (1, pkt)
      | true ↦
          let (whole', size) = read_field d.size_bytes 0 in
          let pkt' = record pkt { size = size } in
          elim whole' [
            | false ↦ (2, pkt')
            | true ↦ elim (size == 0) [ true ↦ (err, pkt') | false ↦ read_value d (err, pkt') ]
          ]
    ]

-- `FREE_LOADING_PACKET(pkt)`: a block that is freed already is a fault.
unfoldable pub free_loading_packet : LoadingPacket → Option LoadingPacket
free_loading_packet pkt = elim pkt.value [
  | null ↦ some pkt
  | live bytes ↦ some (record pkt { value = null })
  | dangling ↦ none
]

-- What a loader finds at `value`: nothing where the pointer is NULL.
abbrev pub contents : Value → List ℕ
contents null = []
contents (live bytes) = bytes
contents dangling = []
