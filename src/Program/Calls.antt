-- ===== src/Program/Calls.antt =====
-- What a block sends for its calls, against the specification.
use picon.Base.{
  or_right, ℕ, ◌≡◌, refl, ◌∙◌, sym, ap, true, false, ◌⊎◌, ◌==◌, List, [], ◌∷◌, ◌++◌, Option, none,
  some, Option-cases, Bool-cases, inl, inr, arith,
}
use mathlib.Core.Path.{subst}
use picon.Signal.{Signal, call, returned, event_code, event_of}
use picon.Tables.{MonitorData}
use picon.Run.{MonitorState, in_function, expect_call, expect_return}
use picon.Run.Spec.{Frame, Config, calls, returns, CanCall, Target}
use picon.Injected.{cfi_call}
use picon.Injected.Follows.{Follows, stop, step}
use picon.Pass.{
  Instruction, invoke, inline_asm, indirect_call, other, direct_call, Cfi, is_ignored_function,
  get_identifier,
}
use picon.Pass.Inject.{Code, kept, inserted, flush, inject_call, inject_instructions}
use picon.Pass.Announced.{calls_in, first_injected, calls_in-flush}
use picon.Program.{Program, Then, RunsCode}

-- Signals that follow one another.
pub Follows-append :
    (p : MonitorData) (c'' c' c : Config) (own rest : List Signal)
    → Follows p c' c own
    → Follows p c'' c' rest
    → Follows p c'' c (own ++ rest)
Follows-append p c'' c' c own rest stop k = k
Follows-append p c'' c' c own rest (step {d = d} {rest = later} s f) k =
    step s (Follows-append p c'' c' d later rest f k)

-- The codes of the events are those that the monitor knows.
event_of-call : event_of (event_code call) ≡ some call
unfolding event_of event_code
event_of-call = refl

event_of-returned : event_of (event_code returned) ≡ some returned
unfolding event_of event_code
event_of-returned = refl

-- An instruction is kept as it is, or it is a call that is announced.
inject_call-cases :
    (cfi : Cfi) (i : Instruction) (own : List Code) (after : Option ℕ)
    → inject_call cfi i ≡ some (own, after)
    → ((own ≡ kept i ∷ []) × (after ≡ none))
      ⊎ ((id : ℕ) × (own ≡ inserted (cfi_call id) ∷ kept i ∷ []) × (after ≡ some id))
unfolding inject_call
inject_call-cases cfi invoke own after h = absurd (ground arith)
inject_call-cases cfi indirect_call own after h = absurd (ground arith)
inject_call-cases cfi inline_asm own after h = inl (ground arith, ground arith)
inject_call-cases cfi other own after h = inl (ground arith, ground arith)
inject_call-cases cfi (direct_call callee true) own after h = inl (ground arith, ground arith)
inject_call-cases cfi (direct_call callee false) own after h =
    elim (Bool-cases (is_ignored_function cfi callee)) [
      | inl ignored ↦ inl (ground arith, ground arith)
      | inr seen ↦ elim (Option-cases (get_identifier cfi callee)) [
        | inl n ↦ absurd (ground arith)
        | inr (id, known) ↦ inr (id, ground arith, ground arith)
      ]
    ]

no_code :
    (cfi : Cfi) (after : Option ℕ) (code : List Code)
    → inject_instructions cfi [] after ≡ some code
    → code ≡ flush after ++ []
unfolding inject_instructions
no_code cfi none code h = ground arith
no_code cfi (some id) code h = ground arith

-- The state of the monitor where a call has returned that is still to be announced, or none.
abbrev awaits : Option ℕ → MonitorState
awaits none = in_function
awaits (some id) = expect_return

abbrev Awaited : MonitorData → Frame → Option ℕ → Type 0
Awaited p f none = Unit {0}
Awaited p f (some id) = CanCall p f id

module _ (prog : Program) (p : MonitorData) (m : ℕ) (cfi : Cfi)
    (unlinked : (i : Instruction)
      → inject_call cfi i ≡ some (kept i ∷ [], none)
      → prog.callee m i ≡ none)
    (linked : (i : Instruction) (id : ℕ)
      → inject_call cfi i ≡ some (inserted (cfi_call id) ∷ kept i ∷ [], some id)
      → (m' : ℕ) × (f : ℕ) × (prog.callee m i ≡ some (m', f))
        × Target p m id (record { module_id = m'; function_id = f; block_id = 0 }))
    (CallSends : ℕ → ℕ → List Signal → Type 0)
    (call-Follows : (m' f : ℕ) (sent : List Signal) (caller : Frame) (callers : List Frame)
      → caller.module_id ≡ m
      → CallSends m' f sent
      → Follows p
          (record { state = expect_return; frame = caller; callers = callers })
          (record {
            state = expect_call;
            frame = record { module_id = m'; function_id = f; block_id = 0 };
            callers = caller ∷ callers;
          })
          sent)
    (f block : ℕ) (callers : List Frame) where
  abbrev here : Frame
  here = record { module_id = m; function_id = f; block_id = block }

  abbrev being : MonitorState → Config
  being s = record { state = s; frame = here; callers = callers }

  -- What is left of the last call is sent first.
  flush-Follows :
      (after : Option ℕ) (code : List Code) (sent : List Signal)
      → Awaited p here after
      → RunsCode prog CallSends m (flush after ++ code) sent
      → (rest : List Signal) × RunsCode prog CallSends m code rest
        × ((c : Config)
            → Follows p c (being in_function) rest
            → Follows p c (being (awaits after)) sent)
  flush-Follows none code sent h r = (sent, r, λ c k. k)
  flush-Follows (some id) code sent h (rest, q, r) = (
    rest,
    r,
    λ c k.
        subst (Follows p c (being expect_return)) (sym q)
          (step (returns event_of-returned refl h) k),
  )

  quiet_step :
      (i : Instruction) (rest : List Code) (sent : List Signal)
      → prog.callee m i ≡ none
      → RunsCode prog CallSends m (kept i ∷ rest) sent
      → RunsCode prog CallSends m rest sent
  quiet_step i rest sent h r = rw (h, RunsCode) at r

  -- A call: it is announced, made, and comes back to the block.
  call_step :
      (i : Instruction) (id : ℕ) (rest : List Code) (sent : List Signal)
      → inject_call cfi i ≡ some (inserted (cfi_call id) ∷ kept i ∷ [], some id)
      → CanCall p here id
      → ((later : List Signal)
          → RunsCode prog CallSends m rest later
          → Follows p (being in_function) (being expect_return) later)
      → RunsCode prog CallSends m (inserted (cfi_call id) ∷ kept i ∷ rest) sent
      → Follows p (being in_function) (being in_function) sent
  call_step i id rest sent h can ih (left, q, r) =
      let (m', g, named, target) = linked i id h in
      let made : Then (CallSends m' g) (RunsCode prog CallSends m rest) left =
        rw (named, RunsCode) at r in
      let (own, later, both, call_sends, r') = made in
      let goes = call-Follows m' g own here callers refl call_sends in
      let whole =
        Follows-append p (being in_function) (being expect_return)
          (record {
            state = expect_call;
            frame = record { module_id = m'; function_id = g; block_id = 0 };
            callers = here ∷ callers;
          })
          own later goes (ih later r') in
      subst (Follows p (being in_function) (being in_function)) (sym q) (
        step
          (calls (record { module_id = m'; function_id = g; block_id = 0 }) event_of-call refl can
            target)
          (subst (Follows p (being in_function) _) (sym both) whole))

  -- The code of one instruction, before that of the others.
  own-Follows :
      (i : Instruction) (own rest : List Code) (after : Option ℕ) (sent : List Signal)
      → inject_call cfi i ≡ some (own, after)
      → ((j : ℕ) → calls_in j (own ++ rest) ≡ true → CanCall p here j)
      → ((later : List Signal)
          → ((j : ℕ) → calls_in j rest ≡ true → CanCall p here j)
          → Awaited p here after
          → RunsCode prog CallSends m rest later
          → Follows p (being in_function) (being (awaits after)) later)
      → RunsCode prog CallSends m (own ++ rest) sent
      → Follows p (being in_function) (being in_function) sent
  own-Follows i own rest after sent h allowed ih r = elim (inject_call-cases cfi i own after h) [
    | inl (k, q) ↦
        let alone : inject_call cfi i ≡ some (kept i ∷ [], none) = rw (k, q) at h in
        let r' : RunsCode prog CallSends m (kept i ∷ rest) sent = rw k at r in
        let allowed' = λ (j : ℕ) (e : calls_in j rest ≡ true).
          allowed j (ap (λ o. calls_in j (o ++ rest)) k ∙ e) in
        subst (λ a. Follows p (being in_function) (being (awaits a)) sent) (q)
          (ih sent allowed' (rw q tt) (quiet_step i rest sent (unlinked i alone) r'))
    | inr (id, k, q) ↦
        let announced : inject_call cfi i ≡ some (inserted (cfi_call id) ∷ kept i ∷ [], some id) =
          rw (k, q) at h in
        let r' : RunsCode prog CallSends m (inserted (cfi_call id) ∷ kept i ∷ rest) sent =
          rw k at r in
        let own_call : calls_in id (inserted (cfi_call id) ∷ kept i ∷ rest) ≡ true = ground arith in
        let can = allowed id (ap (λ o. calls_in id (o ++ rest)) k ∙ own_call) in
        let allowed' = λ (j : ℕ) (e : calls_in j rest ≡ true).
          allowed j (ap (λ o. calls_in j (o ++ rest)) k ∙ or_right (id == j) (calls_in j rest) e) in
        call_step i id rest sent announced can
          (λ later run.
            subst (λ a. Follows p (being in_function) (being (awaits a)) later) (q)
              (ih later allowed' (rw q can) run))
          r'
  ]

  -- The calls of some instructions, up to what is left of the last one.
  pub calls-Follows :
      (is : List Instruction) (after : Option ℕ) (code : List Code) (sent : List Signal)
      → inject_instructions cfi is after ≡ some code
      → ((j : ℕ) → calls_in j code ≡ true → CanCall p here j)
      → Awaited p here after
      → RunsCode prog CallSends m code sent
      → Follows p (being in_function) (being (awaits after)) sent
  calls-Follows [] after code sent h allowed awaited r =
      let same : code ≡ flush after ++ [] = no_code cfi after code h in
      let (rest, nothing, whole) = flush-Follows after [] sent awaited (rw same at r) in
      whole (being in_function)
        (subst (Follows p (being in_function) (being in_function)) (sym nothing) stop)
  calls-Follows (i ∷ is) after code sent h allowed awaited r =
      let (own, after', rest, first, others, same) = first_injected cfi i is after code h in
      let (left, r', whole) = flush-Follows after (own ++ rest) sent awaited (rw same at r) in
      let allowed' : (j : ℕ) → calls_in j (own ++ rest) ≡ true → CanCall p here j =
        λ j q. allowed j (ap (calls_in j) same ∙ (calls_in-flush j after (own ++ rest) ∙ q)) in
      whole (being in_function) (
        own-Follows i own rest after' left first allowed'
          (λ later allowed_rest waits run.
            calls-Follows is after' rest later others allowed_rest waits run)
          r')
