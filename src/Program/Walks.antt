-- ===== src/Program/Walks.antt =====
-- What a walk through the blocks of a function sends, against the specification.
use picon.Base.{
  or_right, ℕ, zero, suc, ◌+◌, ◌<◌, ◌≡◌, refl, ◌∙◌, sym, ap, true, false, ◌==◌, List, [], ◌∷◌, ◌++◌,
  none, some, Option-cases, Bool-cases, inl, inr, arith, length, get_elem?,
}
use mathlib.Core.List.{append_assoc}
use picon.Signal.{Signal, before_jump, after_jump, event_code, event_of}
use picon.Tables.{MonitorData}
use picon.Load.Rows.{occurs}
use picon.Run.{MonitorState, in_function, expect_call, expect_return}
use picon.Run.Spec.{Frame, Config, jumps, lands, CanJump}
use picon.Injected.{Event, cfi_exit, cfi_before_br, cfi_after_br}
use picon.Injected.Follows.{Follows, step, signal_of}
use picon.Pass.{
  Block, CfiFct, lookup, is_declaration, is_ignored_function, is_ignored_blocks_function,
}
use picon.Pass.Inject.{Code, kept, inserted, InjectedBlock, inject_function}
use picon.Pass.Announced.{announces, calls_in}
use picon.Pass.Layout.{first_event, last_event, not_empty}
use picon.Pass.Files.{skips_blocks}
use picon.Program.{Program, ModuleCode, Then, RunsCode, RunsBlocks, IsBuilt, IsShaped}
use picon.Program.Blocks.{block_code}
use picon.Program.Calls.{calls-Follows, Follows-append}
use picon.Program.Edges.{announced-CanCall, successor-CanJump}

event_of-before_jump : event_of (event_code before_jump) ≡ some before_jump
unfolding event_of event_code
event_of-before_jump = refl

event_of-after_jump : event_of (event_code after_jump) ≡ some after_jump
unfolding event_of event_code
event_of-after_jump = refl

-- The signals of some code are those of its parts, one after the other.
RunsCode-append :
    (prog : Program) (CallSends : ℕ → ℕ → List Signal → Type 0) (m : ℕ) (a b : List Code)
    (sent : List Signal)
    → RunsCode prog CallSends m (a ++ b) sent
    → Then (RunsCode prog CallSends m a) (RunsCode prog CallSends m b) sent
RunsCode-append prog CallSends m [] b sent r = ([], sent, refl, refl, r)
RunsCode-append prog CallSends m (inserted e ∷ a) b sent (rest, q, r) =
    let (own, later, both, r₁, r₂) = RunsCode-append prog CallSends m a b rest r in
    (signal_of m e ∷ own, later, q ∙ ap (λ l. signal_of m e ∷ l) both, (own, refl, r₁), r₂)
RunsCode-append prog CallSends m (kept i ∷ a) b sent r = elim (Option-cases (prog.callee m i)) [
  | inl n ↦
      let (own, later, both, r₁, r₂) =
        RunsCode-append prog CallSends m a b sent (rw (n, RunsCode) at r) in
      (own, later, both, rw (n, RunsCode) r₁, r₂)
  | inr ((m', f), s) ↦
      let made : Then (CallSends m' f) (RunsCode prog CallSends m (a ++ b)) sent =
        rw (s, RunsCode) at r in
      let (called, rest, q, sends, r') = made in
      let (own, later, both, r₁, r₂) = RunsCode-append prog CallSends m a b rest r' in
      let whole : Then (CallSends m' f) (RunsCode prog CallSends m a) (called ++ own) =
        (called, own, refl, sends, r₁) in
      (
        called ++ own,
        later,
        q ∙ (ap (λ l. called ++ l) both ∙ sym (append_assoc called own later)),
        rw (s, RunsCode) whole,
        r₂,
      )
]

calls_in-before :
    (j : ℕ) (mid rest : List Code) → calls_in j mid ≡ true → calls_in j (mid ++ rest) ≡ true
calls_in-before j [] rest h = absurd (ground arith)
calls_in-before j (c ∷ mid) rest h = elim (Bool-cases (announces j c)) [
  | inl own ↦ rw own refl
  | inr other ↦ ground (arith, calls_in-before j mid rest (ground arith))
]

-- The calls of a block stand between its two other calls.
calls_in-between :
    (j : ℕ) (first last : Event) (mid : List Code)
    → calls_in j mid ≡ true
    → calls_in j (inserted first ∷ mid ++ inserted last ∷ []) ≡ true
calls_in-between j first last mid h =
    or_right (announces j (inserted first)) (calls_in j (mid ++ inserted last ∷ []))
      (calls_in-before j mid (inserted last ∷ []) h)

get_elem?-lt : {A : Type 0} (xs : List A) (k : ℕ) (x : A) → get_elem? xs k ≡ some x → k < length xs
get_elem?-lt [] k x h = absurd (ground arith)
get_elem?-lt (y ∷ ys) zero x h = omega arith
get_elem?-lt (y ∷ ys) (suc k) x h = omega (arith, get_elem?-lt ys k x h)

-- A walk joins the signals of a block to those of the blocks after it.
joined :
    {A : Type 0} (first before after last : A) (own later : List A)
    → (first ∷ own ++ before ∷ []) ++ (after ∷ later ++ last ∷ [])
      ≡ first ∷ (own ++ before ∷ after ∷ later) ++ last ∷ []
joined first before after last own later =
    ap (λ l. first ∷ l)
      (append_assoc own (before ∷ []) (after ∷ later ++ last ∷ [])
        ∙ sym (append_assoc own (before ∷ after ∷ later) (last ∷ [])))

module _ (prog : Program) (p : MonitorData) (m : ℕ) (code : ModuleCode)
    (built : IsBuilt prog p m code) (CallSends : ℕ → ℕ → List Signal → Type 0)
    (call-Follows : (m' f : ℕ) (sent : List Signal) (caller : Frame) (callers : List Frame)
      → caller.module_id ≡ m
      → CallSends m' f sent
      → Follows p
          (record { state = expect_return; frame = caller; callers = callers })
          (record {
            state = expect_call;
            frame = record { module_id = m'; function_id = f; block_id = 0 };
            callers = caller ∷ callers;
          })
          sent)
    (c : CfiFct) (place : ℕ) (blocks : List InjectedBlock) (callers : List Frame)
    (mapped : get_elem? built.cfi.function_map place ≡ some c)
    (there : get_elem? code place ≡ some (c.id, blocks))
    (has_code : inject_function built.cfi true c ≡ some blocks)
    (known : lookup c.fun.name built.cfi.identified_functions ≡ some c.id)
    (seen : is_ignored_function built.cfi c.fun.name ≡ false)
    (followed : is_ignored_blocks_function built.cfi c.fun.name ≡ false)
    (shaped : IsShaped c.fun.blocks) where
  -- In a block of the function.
  abbrev in_block : ℕ → MonitorState → Config
  in_block k s = record {
    state = s;
    frame = record { module_id = m; function_id = c.id; block_id = k };
    callers = callers;
  }

  -- The signals of a block: its first call, those of the calls that it makes, its last call.
  block-Follows :
      (k : ℕ) (b : InjectedBlock) (sent : List Signal)
      → get_elem? blocks k ≡ some b
      → RunsCode prog CallSends m b.code sent
      → (own : List Signal) × (sent
          ≡ signal_of m (first_event c.id k) ∷ own
            ++ signal_of m (last_event c.id k (length c.fun.blocks)) ∷ [])
        × Follows p (in_block k in_function) (in_block k in_function) own
  block-Follows k b sent h r =
      let (src, mid, at_src, same, own_calls, q) =
        block_code built.cfi c blocks k b followed known has_code h in
      let first = first_event c.id k in
      let last = last_event c.id k (length c.fun.blocks) in
      let (rest, sends, r') : RunsCode prog CallSends m (inserted first ∷ mid ++ inserted last ∷ [])
          sent =
        rw q at r in
      let (own, later, both, r₁, (_, ending, nothing)) =
        RunsCode-append prog CallSends m mid (inserted last ∷ []) rest r' in
      let follows =
        calls-Follows prog p m built.cfi built.unlinked built.linked CallSends call-Follows c.id k
          callers src.body none mid own own_calls
          (λ j e.
            announced-CanCall prog p m code built place k j k c.id blocks b there h
              (ap (calls_in j) q ∙ calls_in-between j first last mid e))
          tt r₁ in
      (
        own,
        sends
            ∙ ap (λ l. signal_of m first ∷ l)
                (both ∙ ap (λ l. own ++ l) (ending ∙ ap (λ l. signal_of m last ∷ l) nothing)),
        follows,
      )

  -- A block that goes to another is not the last one, and what it goes to is not the first one.
  goes_on :
      (k k' : ℕ) (src : Block)
      → get_elem? c.fun.blocks k ≡ some src
      → occurs k' src.successors ≡ true
      → ((k + 1 == length c.fun.blocks) ≡ false)
        × ((k' == 0) ≡ false)
        × CanJump p (record { module_id = m; function_id = c.id; block_id = k }) k'
  goes_on k k' src h q =
      let not_last : (k + 1 == length c.fun.blocks) ≡ false =
        elim (Bool-cases (k + 1 == length c.fun.blocks)) [
          | inr n ↦ n
          | inl l ↦
              let none_left = (shaped.ends_last k src h).1 (ground arith) in
              let nowhere : occurs k' src.successors ≡ false = ap (occurs k') none_left in
              absurd (ground arith)
        ] in
      let not_first : (k' == 0) ≡ false = elim (Bool-cases (k' == 0)) [
        | inr n ↦ n
        | inl z ↦
            let zeroth : k' ≡ 0 = ground arith in
            let unreached = shaped.first_unreached k src h in
            let reached : occurs 0 src.successors ≡ true = rw zeroth at q in absurd (ground arith)
      ] in
      let below = get_elem?-lt c.fun.blocks k src h in
      let many : (length c.fun.blocks == 1) ≡ false = ground arith in
      let defined : is_declaration c.fun ≡ false = not_empty c.fun.blocks k src h in
      let written : skips_blocks built.cfi c.fun ≡ false =
        rw (skips_blocks, seen, followed, defined) refl in
      (
        not_last,
        not_first,
        successor-CanJump prog p m code built place k k' c src mapped written many h q,
      )

  -- A walk from a block on: the first call of that block, then signals that stay in the function,
  -- then its exit, sent from some block of it.
  pub walk-Follows :
      (k : ℕ) (walk : List ℕ) (sent : List Signal)
      → RunsBlocks prog CallSends m blocks k walk sent
      → (own : List Signal) × (k' : ℕ) × (sent
          ≡ signal_of m (first_event c.id k) ∷ own ++ signal_of m (cfi_exit c.id) ∷ [])
        × Follows p (in_block k' in_function) (in_block k in_function) own
  walk-Follows k [] sent (b, h, ends, r) =
      let (own, q, follows) = block-Follows k b sent h r in
      let (src, _, at_src, same, _, _) =
        block_code built.cfi c blocks k b followed known has_code h in
      let last : k + 1 ≡ length c.fun.blocks = (shaped.ends_last k src at_src).0 (same ∙ ends) in
      let exits : last_event c.id k (length c.fun.blocks) ≡ cfi_exit c.id = ground arith in
      (
        own,
        k,
        q ∙ ap (λ e. signal_of m (first_event c.id k) ∷ own ++ signal_of m e ∷ []) exits,
        follows,
      )
  walk-Follows k (k₁ ∷ walk) sent (b, h, goes, (one, rest, q, r₁, r₂)) =
      let (own, q₁, follows) = block-Follows k b one h r₁ in
      let (src, _, at_src, same, _, _) =
        block_code built.cfi c blocks k b followed known has_code h in
      let (not_last, not_first, can) = goes_on k k₁ src at_src (ap (occurs k₁) same ∙ goes) in
      let (own', k', q₂, follows') = walk-Follows k₁ walk rest r₂ in
      let departs : last_event c.id k (length c.fun.blocks) ≡ cfi_before_br c.id k = ground arith in
      let arrives : first_event c.id k₁ ≡ cfi_after_br c.id k₁ = ground arith in
      let before = signal_of m (cfi_before_br c.id k) in
      let after = signal_of m (cfi_after_br c.id k₁) in
      let first = signal_of m (first_event c.id k) in
      let last = signal_of m (cfi_exit c.id) in
      let one_is : one ≡ first ∷ own ++ before ∷ [] =
        q₁ ∙ ap (λ e. first ∷ own ++ signal_of m e ∷ []) departs in
      let rest_is : rest ≡ after ∷ own' ++ last ∷ [] =
        q₂ ∙ ap (λ e. signal_of m e ∷ own' ++ last ∷ []) arrives in
      (
        own ++ before ∷ after ∷ own',
        k',
        q
            ∙ (ap (λ l. l ++ rest) one_is
                ∙ (ap (λ l. (first ∷ own ++ before ∷ []) ++ l) rest_is
                    ∙ joined first before after last own own')),
        Follows-append p (in_block k' in_function) (in_block k in_function) (in_block k in_function)
            own (before ∷ after ∷ own') follows
            (step
              (jumps event_of-before_jump refl (record { same_module = refl; same_function = refl })
                refl)
              (step
                (lands event_of-after_jump refl
                  (record { same_module = refl; same_function = refl }) can)
                follows')),
      )
