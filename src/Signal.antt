-- ===== src/Signal.antt =====
-- include/picon/shared.h: the signals that the client sends, as the bytes that a pipe carries.
-- `client_signal` is packed, and a multi-byte field stands with its low byte first (the byte order
-- of the machines the program is built for, which prelink/picon-prelink writes out too).
pub mod Codec
use picon.Base.{
  ℕ, zero, suc, ◌+◌, ◌*◌, ◌/◌, ◌%◌, List, [], ◌∷◌, ◌++◌, length, take, drop, ◌==◌, if◌then◌else◌,
  Option, none, some, ltb,
}

-- `client_event`
pub data ClientEvent : Type 0 where
  before_jump after_jump call enter exit returned : ClientEvent

-- The number of an enumerator.
unfoldable pub event_code : ClientEvent → ℕ
event_code before_jump = 0
event_code after_jump = 1
event_code call = 2
event_code enter = 3
event_code exit = 4
event_code returned = 5

-- The enumerator of a number; `none` stands for a byte that is no enumerator.
unfoldable pub event_of : ℕ → Option ClientEvent
event_of zero = some before_jump
event_of (suc zero) = some after_jump
event_of (suc (suc zero)) = some call
event_of (suc (suc (suc zero))) = some enter
event_of (suc (suc (suc (suc zero)))) = some exit
event_of (suc (suc (suc (suc (suc zero))))) = some returned
event_of (suc (suc (suc (suc (suc (suc n)))))) = none

-- `client_signal`: a field is named after its type, as `module` is taken here.
pub record Signal : Type 0 where
  pub event : ℕ  -- 8 bits
  pub module_id : ℕ  -- uint16_t
  pub function_id : ℕ  -- uint32_t
  pub block_id : ℕ  -- uint32_t

-- The low `w` bytes of a number, low byte first.
abbrev pub le_bytes : ℕ → ℕ → List ℕ
le_bytes zero n = []
le_bytes (suc w) n = (n % 256) ∷ le_bytes w (n / 256)

abbrev pub le_value : List ℕ → ℕ
le_value [] = 0
le_value (b ∷ bs) = b + 256 * le_value bs

-- `sizeof(client_signal)`
abbrev pub signal_size : ℕ
signal_size = 11

-- The bytes of a `client_signal` in memory.
unfoldable pub encode : Signal → List ℕ
encode s =
    le_bytes 1 s.event
    ++ (le_bytes 2 s.module_id ++ (le_bytes 4 s.function_id ++ le_bytes 4 s.block_id))

unfoldable pub decode : List ℕ → Signal
decode bs = record {
  event = le_value (take 1 bs);
  module_id = le_value (take 2 (drop 1 bs));
  function_id = le_value (take 4 (drop 3 bs));
  block_id = le_value (take 4 (drop 7 bs));
}

-- `READ_CLIENT_SIGNAL(fd,dst,err)`, where `packet` is what the pipe holds for this `read` (`[]` at
-- the end of file). A short read overwrites the front of `dst` and leaves the rest.
unfoldable pub read_signal : List ℕ → ℕ × Signal → ℕ × Signal
unfolding encode decode
read_signal packet (err, dst) =
    let got = take signal_size packet in
    (if length got == signal_size then err else 1, decode (got ++ drop (length got) (encode dst)))
