-- ===== src/Signal/Codec.antt =====
-- Signals survive the pipe.
use mathlib.Core.List.{append-nil}
use picon.Base.{
  ℕ, zero, suc, ◌^◌, ◌≤◌, ◌<◌, ◌≡◌, refl, ap, List, [], ◌∷◌, length, take, arith, some,
}
use picon.Signal.{
  ClientEvent, before_jump, Signal, event_code, event_of, encode, decode, read_signal, signal_size,
}

-- The fields of a `client_signal` fit their widths.
pub record InRange (s : Signal) : Type 0 where
  pub event_in : s.event < 2 ^ 8
  pub module_in : s.module_id < 2 ^ 16
  pub function_in : s.function_id < 2 ^ 32
  pub block_in : s.block_id < 2 ^ 32

-- Every enumerator is recognised from its number.
pub event_of-event_code : (e : ClientEvent) → event_of (event_code e) ≡ some e
unfolding event_of event_code
event_of-event_code before_jump = refl
event_of-event_code _ = refl

-- A signal whose fields fit is read back from its eleven bytes, whatever the destination held, and
-- the error variable is left alone.
pub read_signal-encode :
    (s old : Signal) (err : ℕ) → InRange s → read_signal (encode s) (err, old) ≡ (err, s)
unfolding read_signal
read_signal-encode s old err h = ground arith

-- At the end of file the destination keeps its (in range) value, and the error variable is 1.
pub read_signal-nil : (old : Signal) (err : ℕ) → InRange old → read_signal [] (err, old) ≡ (1, old)
unfolding read_signal
read_signal-nil old err h = ground arith

-- The signal that a whole packet holds.
abbrev pub received : List ℕ → Signal
received packet = decode (take signal_size packet)

length-take-le : (n : ℕ) (xs : List ℕ) → n ≤ length xs → length (take n xs) ≡ n
length-take-le zero xs h = refl
length-take-le (suc n) [] h = absurd (omega arith)
length-take-le (suc n) (x ∷ xs) h = ap suc (length-take-le n xs (omega arith))

-- A packet that is long enough gives the signal of its first eleven bytes, whatever the destination
-- held.
pub read_signal-received :
    (packet : List ℕ) (old : Signal) (err : ℕ)
    → signal_size ≤ length packet
    → read_signal packet (err, old) ≡ (err, received packet)
unfolding read_signal encode
read_signal-received packet old err h =
    let n = length-take-le signal_size packet h in rw (n, append-nil (take signal_size packet))
