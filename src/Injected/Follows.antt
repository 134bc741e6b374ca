-- ===== src/Injected/Follows.antt =====
-- The specification of a run, up to some signal, and the signals of a client.
use picon.Base.{ℕ, ◌^◌, ◌<◌, ◌≡◌, refl, List, [], ◌∷◌, arith}
use picon.Signal.{
  Signal, before_jump, after_jump, call, enter, exit, returned, event_code, encode, read_signal,
}
use picon.Signal.Codec.{InRange, read_signal-encode}
use picon.Tables.{MonitorData}
use picon.Run.Spec.{Config, Step}
use picon.Injected.{
  Injected, Event, cfi_enter, cfi_exit, cfi_call, cfi_returned, cfi_before_br, cfi_after_br,
  prepare,
}

-- The signals lead from a configuration to `c'`.
pub data Follows (p : MonitorData) (c' : Config) : Config → List Signal → Type 0 where
  stop : Follows p c' c' []
  step :
      {c d : Config} {sig : Signal} {rest : List Signal}
      → Step p sig c d
      → Follows p c' d rest
      → Follows p c' c (sig ∷ rest)

-- What a call sends, of module `m_id`.
abbrev pub signal_of : ℕ → Event → Signal
signal_of m_id (cfi_enter f) = record {
  event = event_code enter;
  module_id = m_id;
  function_id = f;
  block_id = 0;
}
signal_of m_id (cfi_exit f) = record {
  event = event_code exit;
  module_id = m_id;
  function_id = f;
  block_id = 0;
}
signal_of m_id (cfi_call f) = record {
  event = event_code call;
  module_id = m_id;
  function_id = f;
  block_id = 0;
}
signal_of m_id (cfi_returned f) = record {
  event = event_code returned;
  module_id = m_id;
  function_id = f;
  block_id = 0;
}
signal_of m_id (cfi_before_br f b) = record {
  event = event_code before_jump;
  module_id = m_id;
  function_id = f;
  block_id = b;
}
signal_of m_id (cfi_after_br f b) = record {
  event = event_code after_jump;
  module_id = m_id;
  function_id = f;
  block_id = b;
}

abbrev pub signals_of : ℕ → List Event → List Signal
signals_of m_id [] = []
signals_of m_id (e ∷ es) = signal_of m_id e ∷ signals_of m_id es

-- The arguments are of 32 bits.
abbrev pub Fits : Event → Type 0
Fits (cfi_enter f) = f < 2 ^ 32
Fits (cfi_exit f) = f < 2 ^ 32
Fits (cfi_call f) = f < 2 ^ 32
Fits (cfi_returned f) = f < 2 ^ 32
Fits (cfi_before_br f b) = (f < 2 ^ 32) × (b < 2 ^ 32)
Fits (cfi_after_br f b) = (f < 2 ^ 32) × (b < 2 ^ 32)

abbrev pub AllFit : List Event → Type 0
AllFit [] = Unit {0}
AllFit (e ∷ es) = Fits e × AllFit es

pub prepare_lem : (e : Event) (st : Injected) → (prepare e st).cs ≡ signal_of st.cs.module_id e
unfolding prepare
prepare_lem (cfi_enter f) st = refl
prepare_lem _ st = refl

pub signal_of-InRange : (e : Event) (m_id : ℕ) → m_id < 2 ^ 16 → Fits e → InRange (signal_of m_id e)
unfolding event_code
signal_of-InRange (cfi_enter f) m_id h w = omega (arith, h, w)
signal_of-InRange (cfi_before_br f b) m_id h w = omega (arith, h, w)
signal_of-InRange (cfi_after_br f b) m_id h w = omega (arith, h, w)
signal_of-InRange (cfi_exit f) m_id h w = omega (arith, h, w)
signal_of-InRange (cfi_call f) m_id h w = omega (arith, h, w)
signal_of-InRange (cfi_returned f) m_id h w = omega (arith, h, w)

-- The monitor reads what the call sends.
pub read_prepared :
    (e : Event) (st : Injected) (old : Signal) (err : ℕ)
    → st.cs.module_id < 2 ^ 16
    → Fits e
    → read_signal (encode (prepare e st).cs) (err, old) ≡ (err, signal_of st.cs.module_id e)
read_prepared e st old err h w = rw (prepare_lem e st) (
    read_signal-encode (signal_of st.cs.module_id e) old err
      (signal_of-InRange e st.cs.module_id h w))
