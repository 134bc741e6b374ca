-- ===== src/Injected.antt =====
-- include/picon/injected_code.c: the functions that are called by instrumented code, and one such
-- call together with the monitor that answers it.
pub mod Follows
pub mod Together
pub mod World
pub mod Traces
pub mod Ahead
use picon.Base.{ℕ, ◌-◌, ◌^◌, Bool, true, false, not, ◌==◌, List, [], ◌∷◌, Option, none, some}
use picon.Signal.{
  ClientEvent, Signal, before_jump, after_jump, call, enter, exit, returned, event_code, encode,
  read_signal,
}
use picon.Run.{Env, Monitor, Flow, proceed, leave, fault, handle}

-- `_fd_client_to_monitor`, `_fd_monitor_to_client` and `_cs`; a descriptor is an `int` of 32 bits.
pub record Injected : Type 0 where
  pub fd_client_to_monitor : ℕ
  pub fd_monitor_to_client : ℕ
  pub cs : Signal

-- The static values.
abbrev pub initial : Injected
initial = record {
  fd_client_to_monitor = 2 ^ 32 - 1;
  fd_monitor_to_client = 2 ^ 32 - 1;
  cs = record { event = 0; module_id = 2 ^ 16 - 1; function_id = 0; block_id = 0 };
}

-- `__CFI_SET_FDS`
unfoldable pub cfi_set_fds : ℕ → ℕ → Injected → Injected
cfi_set_fds to from st = record st { fd_client_to_monitor = to; fd_monitor_to_client = from }

-- `__CFI_SET_MODULE_ID`
unfoldable pub cfi_set_module_id : ℕ → Injected → Injected
cfi_set_module_id m_id st =
    let cs = st.cs in
    record st {
      cs = record {
        event = cs.event;
        module_id = m_id;
        function_id = cs.function_id;
        block_id = cs.block_id;
      };
    }

-- The calls that instrumented code makes, one constructor for each function.
pub data Event : Type 0 where
  cfi_enter cfi_exit cfi_call cfi_returned : (function : ℕ) → Event
  cfi_before_br cfi_after_br : (function block : ℕ) → Event

-- `_cs.event = …; _cs.function = …; _cs.block = …;`
abbrev set_signal : ClientEvent → ℕ → ℕ → Injected → Injected
set_signal e function block st = record st {
  cs = record {
    event = event_code e;
    module_id = st.cs.module_id;
    function_id = function;
    block_id = block;
  };
}

-- The assignments of each function.
unfoldable pub prepare : Event → Injected → Injected
prepare (cfi_enter f) st = set_signal enter f 0 st
prepare (cfi_exit f) st = set_signal exit f 0 st
prepare (cfi_call f) st = set_signal call f 0 st
prepare (cfi_returned f) st = set_signal returned f 0 st
prepare (cfi_before_br f b) st = set_signal before_jump f b st
prepare (cfi_after_br f b) st = set_signal after_jump f b st

-- `CFI_OK`
abbrev pub cfi_ok : ℕ
cfi_ok = 0x42

-- `send_monitor`, given whether the signal is written whole and what the read of the answer has:
-- whether the client goes on; else it aborts.
unfoldable pub send_monitor : Bool → List ℕ → Bool
send_monitor false answer = false
send_monitor true [] = false
send_monitor true (a ∷ rest) = a == cfi_ok

-- What the monitor writes for the client: the answer, or nothing where it ends with an error.
unfoldable pub answer_of : Flow → List ℕ
answer_of (proceed m) = cfi_ok ∷ []
answer_of (leave m) = elim (m.error == 0) [ true ↦ cfi_ok ∷ [] | false ↦ [] ]
answer_of fault = []

-- How a client and its monitor are after some calls: both go on; the run of the
-- monitor has ended, and the client goes on with the calls that are left; or the client aborts.
pub data Progress : Type 0 where
  running : Monitor → Signal → Injected → Progress
  released : Injected → List Event → Progress
  aborted : Progress

module _ (env : Env) where
  -- How the client goes on after the answer.
  unfoldable pub resumed : Flow → Signal → Injected → Progress
  resumed flow sig st = elim (send_monitor true (answer_of flow)) [
    | false ↦ aborted
    | true ↦ elim flow [ proceed m ↦ running m sig st | leave m ↦ released st [] | fault ↦ aborted ]
  ]

  -- One call, where no answer has been sent in advance: the client writes its signal, the monitor
  -- reads and handles it, and the client reads the answer.
  unfoldable pub exchange : Event → Monitor → Signal → Injected → Progress
  exchange e m sig st =
      let st' = prepare e st in
      let r = read_signal (encode st'.cs) (m.error, sig) in
      resumed (handle env (record m { error = r.0 }) r.1 true) r.1 st'

  -- Some calls in a row.
  unfoldable pub run_events : List Event → Monitor → Signal → Injected → Progress
  run_events [] m sig st = running m sig st
  run_events (e ∷ es) m sig st = elim (exchange e m sig st) [
    | running m' sig' st' ↦ run_events es m' sig' st'
    | released st' _ ↦ released st' es
    | aborted ↦ aborted
  ]
