-- ===== src/Program/Allowed.antt =====
-- Runs of a program that the pass has compiled, against what the monitor allows.
use picon.Base.{ℕ, zero, suc, ◌<◌, ◌≤◌, ◌≡◌, refl, ◌∙◌, sym, ap, false, List, [], ◌∷◌, ◌++◌, some}
use mathlib.Core.Path.{subst}
use picon.Signal.{Signal, enter, exit, event_code, event_of}
use picon.Tables.{MonitorData, ModuleData, at}
use picon.Run.{Env, in_function, expect_call, expect_return}
use picon.Run.Spec.{Frame, Config, idle, enters, exits, starts, IsEntrypoint, Completes, last, more}
use picon.Run.Linked.{StaysInPlace}
use picon.Run.Loop.{Round, finished, monitor_run}
use picon.Run.Whole.{AllServed, signals, monitor_run_complete}
use picon.Injected.{cfi_enter, cfi_exit}
use picon.Injected.Follows.{Follows, stop, step, signal_of}
use picon.Program.{Program, CallSends, AreBuilt}
use picon.Program.Blocks.{inject_code_at, AreFollowed-at, AreMapped-at}
use picon.Program.Calls.{Follows-append}
use picon.Program.Walks.{walk-Follows}

event_of-enter : event_of (event_code enter) ≡ some enter
unfolding event_of event_code
event_of-enter = refl

event_of-exit : event_of (event_code exit) ≡ some exit
unfolding event_of event_code
event_of-exit = refl

-- A whole run, after some of its signals.
Follows-Completes :
    (p : MonitorData) (c' c : Config) (own rest : List Signal)
    → Follows p c' c own
    → Completes p c' rest
    → Completes p c (own ++ rest)
Follows-Completes p c' c own rest stop k = k
Follows-Completes p c' c own rest (step {d = d} {rest = later} s f) k =
    more s (Follows-Completes p c' d later rest f k)

module _ (prog : Program) (p : MonitorData) (are_built : AreBuilt prog p) where
  abbrev block_of : ℕ → ℕ → ℕ → Frame
  block_of m f k = record { module_id = m; function_id = f; block_id = k }

  -- In a block of a function.
  abbrev being : ℕ → ℕ → List Frame → ℕ → Config
  being m f callers k = record { state = in_function; frame = block_of m f k; callers = callers }

  -- What a call of a function sends, given what calls of less depth come to: its entry, signals
  -- that stay in it, and its exit.
  call_sends :
      (depth m f : ℕ) (sent : List Signal) (callers : List Frame)
      → ((m' f' : ℕ) (sent' : List Signal) (caller : Frame) (md : ModuleData)
            (callers' : List Frame)
          → at p.modules caller.module_id ≡ some md
          → CallSends prog depth m' f' sent'
          → Follows p
              (record { state = expect_return; frame = caller; callers = callers' })
              (record {
                state = expect_call;
                frame = block_of m' f' 0;
                callers = caller ∷ callers';
              })
              sent')
      → CallSends prog (suc depth) m f sent
      → (own : List Signal) × (k : ℕ) × (sent
          ≡ signal_of m (cfi_enter f) ∷ own ++ signal_of m (cfi_exit f) ∷ [])
        × Follows p (being m f callers k) (being m f callers 0) own
  call_sends depth m f sent callers ih (code, place, blocks, walk, code_of, there, runs) =
      let b = are_built.built m code code_of in
      let (c, mapped, id, has_code) =
        inject_code_at b.cfi b.cfi.function_map code place f blocks b.injected there in
      let (seen, followed, shaped) =
        AreFollowed-at b.cfi b.cfi.function_map place c b.is_followed mapped in
      let known =
        AreMapped-at b.cfi.identified_functions b.cfi.function_map place c b.is_mapped mapped in
      let (own, k, q, follows) =
        walk-Follows prog p m code b (CallSends prog depth)
          (λ m' f' sent' caller callers' same sends.
            ih m' f' sent' caller b.mdata callers' (ap (at p.modules) same ∙ b.found) sends)
          c place blocks callers mapped (rw id there) has_code known seen followed shaped 0 walk
          sent runs in
      (
        own,
        k,
        q ∙ ap (λ g. signal_of m (cfi_enter g) ∷ own ++ signal_of m (cfi_exit g) ∷ []) id,
        subst (λ g. Follows p (being m g callers k) (being m g callers 0) own) (id) follows,
      )

  call-Follows :
      (depth m f : ℕ) (sent : List Signal) (caller : Frame) (md : ModuleData) (callers : List Frame)
      → at p.modules caller.module_id ≡ some md
      → CallSends prog depth m f sent
      → Follows p
          (record { state = expect_return; frame = caller; callers = callers })
          (record { state = expect_call; frame = block_of m f 0; callers = caller ∷ callers })
          sent
  call-Follows zero m f sent caller md callers found sends = elim sends [ ]
  call-Follows (suc depth) m f sent caller md callers found sends =
      let (own, k, q, follows) =
        call_sends depth m f sent (caller ∷ callers) (call-Follows depth) sends in
      let back : Config = record { state = expect_return; frame = caller; callers = callers } in
      subst
        (Follows p back
          (record { state = expect_call; frame = block_of m f 0; callers = caller ∷ callers }))
        (sym q)
        (step
          (enters event_of-enter refl (record { same_module = refl; same_function = refl }) refl)
          (Follows-append p back (being m f (caller ∷ callers) k) (being m f (caller ∷ callers) 0)
            own (signal_of m (cfi_exit f) ∷ []) follows
            (step
              (exits caller callers md event_of-exit refl
                (record { same_module = refl; same_function = refl }) refl found)
              stop)))

  -- Let the modules of a program be compiled by the pass at the level of basic blocks, with the
  -- tables that it writes loaded in the monitor, with functions that have one returning block,
  -- the last one, and do not go back to the first one, and with a linker that finds the functions
  -- that the relocations say. Whatever a call of an entry point then sends, with calls nested to
  -- any depth and into any module, is a whole run of the specification.
  pub CallSends-Completes :
      (depth m f : ℕ) (sent : List Signal)
      → m < p.nb_modules
      → (s : IsEntrypoint p m f) → f < s.mdata.nb_functions
      → CallSends prog depth m f sent
      → Completes p idle sent
  CallSends-Completes zero m f sent below s range sends = elim sends [ ]
  CallSends-Completes (suc depth) m f sent below s range sends =
      let (own, k, q, follows) = call_sends depth m f sent [] (call-Follows depth) sends in
      subst (Completes p idle) (sym q) (
        more (starts event_of-enter refl below s range) (
          Follows-Completes p (being m f [] k) (being m f [] 0) own (signal_of m (cfi_exit f) ∷ [])
            follows
            (last (record {
              is_exit = event_of-exit;
              running = refl;
              about = record { same_module = refl; same_function = refl };
              no_callers = refl;
              start = s;
            }))))

-- Let the modules of a program be compiled by the pass at the level of basic blocks and their
-- tables be loaded, with functions that have one returning block, the last one, and do not go
-- back to the first one, and with a linker that finds the functions that the relocations say. Let
-- the monitor not trace, let its stacks be allocated and stay in place, and let the signals of a
-- call of an entry point, with calls nested to any depth and into any module, come in time and in
-- whole packets and their answers be written. Then `monitor_run` returns 0 on them: the program
-- is not stopped.
pub program_not_stopped :
    (prog : Program) (env : Env) (depth m f : ℕ) (sig : Signal) (rs : List Round) (b₁ b₂ : ℕ)
    → AreBuilt prog env.program
    → m < env.program.nb_modules
    → (s : IsEntrypoint env.program m f) → f < s.mdata.nb_functions
    → CallSends prog depth m f (signals rs)
    → StaysInPlace env
    → env.sm_trace ≡ false
    → env.calls_calloc ≡ some b₁
    → env.blocks_calloc ≡ some b₂
    → 1 ≤ b₁
    → 1 ≤ b₂
    → AllServed rs
    → monitor_run env sig rs ≡ finished 0
program_not_stopped prog env depth m f sig rs b₁ b₂ built below s range sends place off e₁ e₂ l₁ l₂
      served =
    monitor_run_complete env place off sig rs b₁ b₂ e₁ e₂ l₁ l₂ served
      (CallSends-Completes prog env.program built depth m f (signals rs) below s range sends)
