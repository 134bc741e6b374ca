-- ===== src/Load/ShortRead.antt =====
-- include/picon/shared.h and monitor/src/monitor_load.c: a packet whose value is cut short.
use picon.Base.{
  ℕ, ◌≤◌, ◌<◌, ◌≡◌, refl, true, false, ◌==◌, List, ◌∷◌, length, take, length-take, arith,
}
use picon.Tables.{MonitorData}
use picon.Load.Packet.{
  LoadingPacket, Delivery, null, dangling, read_loading_packet, read_value, read_field,
  free_loading_packet,
}
use picon.Load.Module.{crashed, leave_loading, monitor_load_module}

read_field_whole : (bytes : List ℕ) (old : ℕ) → 4 ≤ length bytes → (read_field bytes old).0 ≡ true
read_field_whole bytes old h = let l = length-take 4 bytes in ground arith

-- The code of a read that frees the value.
read_short :
    (d : Delivery) (pkt : LoadingPacket) (err : ℕ)
    → d.value_allocated ≡ true
    → length d.value_bytes < pkt.size
    → read_value d (err, pkt) ≡ (4, record pkt { size = 0; value = dangling })
unfolding read_value
read_short d pkt err allocated short =
    let l = length-take pkt.size d.value_bytes in
    let partial : (length (take pkt.size d.value_bytes) == pkt.size) ≡ false = ground arith in
    rw (read_value, allocated, partial) refl

-- What the three reads come to when the last one is short.
read_short_packet :
    (d : Delivery) (err : ℕ) (dst : LoadingPacket)
    → 4 ≤ length d.event_bytes
    → 4 ≤ length d.size_bytes
    → length d.value_bytes < (read_field d.size_bytes 0).1
    → d.value_allocated ≡ true
    → read_loading_packet d (err, dst)
      ≡ (4, record { event = (read_field d.event_bytes dst.event).1; size = 0; value = dangling })
unfolding read_loading_packet
read_short_packet d err dst events sizes short allocated =
    let size = (read_field d.size_bytes 0).1 in
    let pkt : LoadingPacket = record {
      event = (read_field d.event_bytes dst.event).1;
      size = size;
      value = null;
    } in
    let some_value : (size == 0) ≡ false = ground arith in
    rw
      (
        read_loading_packet,
        read_field_whole d.event_bytes dst.event events,
        read_field_whole d.size_bytes 0 sizes,
        some_value,
      )
      (read_short d pkt err allocated short)

-- When the event and the size of the first packet of a module are read whole and its value, which
-- is allocated, is cut short, the loading of the module frees the value twice.
pub short_value_freed_twice :
    (event : ℕ) (mon : MonitorData) (d : Delivery) (ds : List Delivery)
    → 4 ≤ length d.event_bytes
    → 4 ≤ length d.size_bytes
    → length d.value_bytes < (read_field d.size_bytes 0).1
    → d.value_allocated ≡ true
    → monitor_load_module event mon (d ∷ ds) ≡ crashed
unfolding monitor_load_module leave_loading free_loading_packet
short_value_freed_twice event mon d ds events sizes short allocated =
    let dst : LoadingPacket = record { event = event; size = 0; value = null } in
    rw
      (
        monitor_load_module,
        read_short_packet d 0 dst events sizes short allocated,
        read_short_packet d 0 dst events sizes short allocated,
        leave_loading,
        free_loading_packet,
      )
      refl
