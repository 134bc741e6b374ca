-- ===== src/Injected/World.antt =====
-- include/picon/injected_code.c and monitor/src/main.c: a client and its monitor, joined by two
-- pipes. Answers that the monitor has sent in advance let the client run ahead of it. Both write
-- whole packets, and no pipe breaks before the monitor ends its run.
use picon.Base.{ℕ, ◌≡◌, Bool, true, false, List, [], ◌∷◌, ◌++◌, replicate, Option, none, some}
use picon.Signal.{Signal, encode, read_signal}
use picon.Run.{Env, Monitor, Flow, proceed, leave, fault, handle}
use picon.Injected.{Injected, Event, cfi_ok, prepare, answer_of, send_monitor}

-- The client, and whether it waits for an answer; the monitor, until its run ends, and the signal
-- that it read last; the packets in the pipe to the monitor, and the answers in the pipe to the
-- client.
pub record World : Type 0 where
  pub client : Injected
  pub waits : Bool
  pub monitor : Option Monitor
  pub last_signal : Signal
  pub packets : List (List ℕ)
  pub answers : List ℕ

-- The client and the monitor before the first signal, with `n` answers sent in advance.
abbrev pub before : Injected → Monitor → Signal → ℕ → World
before st m sig n = record {
  client = st;
  waits = false;
  monitor = some m;
  last_signal = sig;
  packets = [];
  answers = replicate n cfi_ok;
}

-- The client has written the signal of a call.
abbrev pub written : Event → World → World
written e w = record w {
  client = prepare e w.client;
  waits = true;
  packets = w.packets ++ encode (prepare e w.client).cs ∷ [];
}

-- What a read of the pipe from the monitor has, and what is left: an answer, or the end of the file
-- where the monitor has ended; else it blocks.
abbrev pub read_answer : Option Monitor → List ℕ → Option (List ℕ × List ℕ)
read_answer m (a ∷ rest) = some (a ∷ [], rest)
read_answer none [] = some ([], [])
read_answer (some m) [] = none

-- The monitor goes on, or its run has ended.
abbrev pub goes_on : Flow → Option Monitor
goes_on (proceed m) = some m
goes_on (leave m) = none
goes_on fault = none

-- The monitor has read a signal and handled it.
abbrev pub served : World → Signal → List (List ℕ) → Flow → World
served w sig rest flow = record w {
  monitor = goes_on flow;
  last_signal = sig;
  packets = rest;
  answers = w.answers ++ answer_of flow;
}

-- What the two can do, one after the other in any order, and the calls that the client has made: it
-- writes the signal of its next call, it reads the answer and gets past the call, or the monitor
-- reads a signal, handles it and answers.
pub data Interleaved (env : Env) (start : World) : World → List Event → Type 0 where
  begin : Interleaved env start start []
  writes :
      {w : World} {es : List Event} (e : Event)
      → Interleaved env start w es
      → w.waits ≡ false
      → Interleaved env start (written e w) (es ++ e ∷ [])
  passes :
      {w : World} {es : List Event} (got rest : List ℕ)
      → Interleaved env start w es
      → w.waits ≡ true
      → read_answer w.monitor w.answers ≡ some (got, rest)
      → send_monitor true got ≡ true
      → Interleaved env start (record w { waits = false; answers = rest }) es
  serves :
      {w : World} {es : List Event} (m : Monitor) (p : List ℕ) (rest : List (List ℕ)) (flow : Flow)
      → Interleaved env start w es
      → w.monitor ≡ some m
      → w.packets ≡ p ∷ rest
      → (let r = read_signal p (m.error, w.last_signal) in
          handle env (record m { error = r.0 }) r.1 true)
        ≡ flow
      → Interleaved env start (served w (read_signal p (m.error, w.last_signal)).1 rest flow) es
