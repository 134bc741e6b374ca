-- ===== src/Injected/Ahead.antt =====
-- include/picon/injected_code.c and monitor/src/main.c: how far the answers that are sent in
-- advance let a client run ahead of its monitor.
use picon.Base.{
  ℕ, suc, ◌+◌, ◌^◌, ◌<◌, ◌≤◌, ◌≡◌, refl, ◌∙◌, sym, ap, true, false, List, [], ◌∷◌, ◌++◌, length,
  length-append, length-replicate, Option, none, some, arith, inl, inr, ◌==◌, Bool-cases,
}
use mathlib.Core.Path.{subst}
use picon.Signal.{Signal, encode, read_signal}
use picon.Run.{Env, Monitor, Flow, proceed, leave, fault, handle}
use picon.Run.Spec.{Frame, Config, Completes}
use picon.Run.Linked.{StaysInPlace, Linked, view}
use picon.Run.Simulation.{handle_sound, handle-IsLast}
use picon.Injected.{Injected, Event, cfi_enter, cfi_ok, prepare, answer_of, send_monitor}
use picon.Injected.Follows.{
  Follows, stop, signal_of, signals_of, Fits, AllFit, prepare_lem, signal_of-InRange,
}
use picon.Signal.Codec.{read_signal-encode}
use picon.Injected.World.{
  World, before, written, goes_on, served, read_answer, Interleaved, begin, writes, passes, serves,
}
use picon.Injected.Traces.{
  Allowed, packets_of, module_id_of, one_if, AllFit-append, packets_of-append, signals_of-append,
  append_one, append_assoc, Follows-step, Follows-Completes,
}

module _ (env : Env) (place : StaysInPlace env) (c₀ : Config) (m_id n : ℕ)
    (small : m_id < 2 ^ 16) where
  -- What the monitor has handled, and what it has still to read.
  abbrev Serving : Option Monitor → List (List ℕ) → List Event → List Event → Type 0
  Serving none packets done ahead = Allowed env.program c₀ (signals_of m_id done)
  Serving (some m) packets done ahead =
      (fs : List Frame) × Linked env m fs
      × Follows env.program (view m fs) c₀ (signals_of m_id done)
      × (packets ≡ packets_of m_id ahead)

  -- The calls are those whose signals have been handled, and then those that the client has made
  -- ahead; the answers that are left to read bound the latter.
  record IsAhead (w : World) (es : List Event) : Type 0 where
    done : List Event
    ahead : List Event
    split : es ≡ done ++ ahead
    bounded : length w.answers + length ahead ≤ n + one_if w.waits
    same_module : module_id_of w.client ≡ m_id
    serving : Serving w.monitor w.packets done ahead

  Serving-Allowed :
      (m : Option Monitor) (packets : List (List ℕ)) (done ahead : List Event)
      → Serving m packets done ahead
      → Allowed env.program c₀ (signals_of m_id done)
  Serving-Allowed none packets done ahead h = h
  Serving-Allowed (some m) packets done ahead (fs, l, f, q) = inl (view m fs, f)

  Serving-written :
      (e : Event) (m : Option Monitor) (packets : List (List ℕ)) (done ahead : List Event)
      → Serving m packets done ahead
      → Serving m (packets ++ encode (signal_of m_id e) ∷ []) done (ahead ++ e ∷ [])
  Serving-written e none packets done ahead h = h
  Serving-written e (some m) packets done ahead (fs, l, f, q) = (
    fs,
    l,
    f,
    ap (λ ps. ps ++ encode (signal_of m_id e) ∷ []) q ∙ sym (packets_of-append m_id ahead (e ∷ [])),
  )

  -- The monitor reads the oldest call that is ahead, and goes on, leaves or faults.
  record Handled (answered : List ℕ) (m : Option Monitor) (rest : List (List ℕ))
      (done ahead : List Event) : Type 0 where
    done' : List Event
    ahead' : List Event
    same : done ++ ahead ≡ done' ++ ahead'
    answers_bound : length answered + length ahead' ≤ length ahead
    goes : Serving m rest done' ahead'

  handled :
      (m : Monitor) (fs : List Frame) (rest : List (List ℕ)) (done ahead : List Event) (e : Event)
      (flow : Flow)
      → Linked env m fs
      → Follows env.program (view m fs) c₀ (signals_of m_id done)
      → rest ≡ packets_of m_id ahead
      → handle env m (signal_of m_id e) true ≡ flow
      → Handled (answer_of flow) (goes_on flow) rest done (e ∷ ahead)
  unfolding answer_of
  handled m fs rest done ahead e (proceed m') l f q h =
      let (fs', s, l') = handle_sound env m (signal_of m_id e) true place fs l m' h in
      record {
        done' = done ++ e ∷ [];
        ahead' = ahead;
        same = append_one done ahead e;
        answers_bound = omega arith;
        goes = (
          fs',
          l',
          subst (Follows env.program (view m' fs') c₀) (sym (signals_of-append m_id done e)) (
              Follows-step env.program (view m fs) c₀ (view m' fs') (signals_of m_id done)
                (signal_of m_id e) f s),
          q,
        );
      }
  handled m fs rest done ahead e fault l f q h = record {
    done' = done;
    ahead' = e ∷ ahead;
    same = refl;
    answers_bound = omega arith;
    goes = inl (view m fs, f);
  }
  handled m fs rest done ahead e (leave m') l f q h = elim (Bool-cases (m'.error == 0)) [
    | inl z ↦ record {
      done' = done ++ e ∷ [];
      ahead' = ahead;
      same = append_one done ahead e;
      answers_bound =
          let one : length (answer_of (leave m')) ≡ 1 = rw (answer_of, z) refl in
          omega (arith, one);
      goes = inr (
          subst (Completes env.program c₀) (sym (signals_of-append m_id done e)) (
            Follows-Completes env.program (view m fs) c₀ (signals_of m_id done) (signal_of m_id e) f
              (handle-IsLast env m (signal_of m_id e) true place fs l m' h (ground arith))));
    }
    | inr z ↦ record {
      done' = done;
      ahead' = e ∷ ahead;
      same = refl;
      answers_bound =
          let no_answer : length (answer_of (leave m')) ≡ 0 = rw (answer_of, z) refl in
          omega (arith, no_answer);
      goes = inl (view m fs, f);
    }
  ]

  prepare_same : (e : Event) (st : Injected) → module_id_of (prepare e st) ≡ module_id_of st
  prepare_same e st = ap (λ s. s.module_id) (prepare_lem e st) ∙ same_id (module_id_of st) e
    where
      same_id : (k : ℕ) (e : Event) → (signal_of k e).module_id ≡ k
      same_id k (cfi_enter f) = refl
      same_id k _ = refl

  written-IsAhead :
      (w : World) (es : List Event) (e : Event)
      → w.waits ≡ false
      → IsAhead w es
      → IsAhead (written e w) (es ++ e ∷ [])
  written-IsAhead w es e idle h =
      let sent : encode (prepare e w.client).cs ≡ encode (signal_of m_id e) =
        ap encode (prepare_lem e w.client ∙ ap (λ k. signal_of k e) h.same_module) in
      record {
        done = h.done;
        ahead = h.ahead ++ e ∷ [];
        split = ap (λ l. l ++ e ∷ []) h.split ∙ append_assoc h.done h.ahead (e ∷ []);
        bounded =
            let count = length-append h.ahead (e ∷ []) in
            let room = h.bounded in
            let none_waits : one_if w.waits ≡ 0 = ap one_if idle in
            omega (arith, count, room, none_waits);
        same_module = prepare_same e w.client ∙ h.same_module;
        serving =
            subst (λ p. Serving w.monitor (w.packets ++ p ∷ []) h.done (h.ahead ++ e ∷ []))
              (sym sent) (Serving-written e w.monitor w.packets h.done h.ahead h.serving);
      }

  -- A client that goes on has read an answer.
  answer_read :
      (m : Option Monitor) (answers got rest : List ℕ)
      → read_answer m answers ≡ some (got, rest)
      → send_monitor true got ≡ true
      → length answers ≡ suc (length rest)
  unfolding send_monitor
  answer_read m (a ∷ answers) got rest h ok =
      let same : answers ≡ rest = ground arith in ap (λ l. suc (length l)) same
  answer_read none [] got rest h ok = absurd (ground arith)
  answer_read (some m) [] got rest h ok = absurd (ground arith)

  passed-IsAhead :
      (w : World) (es : List Event) (got rest : List ℕ)
      → w.waits ≡ true
      → read_answer w.monitor w.answers ≡ some (got, rest)
      → send_monitor true got ≡ true
      → IsAhead w es
      → IsAhead (record w { waits = false; answers = rest }) es
  passed-IsAhead w es got rest waiting answered ok h = record {
    done = h.done;
    ahead = h.ahead;
    split = h.split;
    bounded =
        let room = h.bounded in
        let one : one_if w.waits ≡ 1 = ap one_if waiting in
        let count = answer_read w.monitor w.answers got rest answered ok in
        omega (arith, room, one, count);
    same_module = h.same_module;
    serving = h.serving;
  }

  queue-cases :
      (ahead : List Event) (p : List ℕ) (rest : List (List ℕ))
      → p ∷ rest ≡ packets_of m_id ahead
      → (e : Event) × (later : List Event) × (ahead ≡ e ∷ later)
        × (p ≡ encode (signal_of m_id e))
        × (rest ≡ packets_of m_id later)
  queue-cases [] p rest q = absurd (ground arith)
  queue-cases (e ∷ later) p rest q = (e, later, refl, ap (head_or []) q, ap tail q)
    where
      head_or : List ℕ → List (List ℕ) → List ℕ
      head_or d [] = d
      head_or d (x ∷ xs) = x

      tail : List (List ℕ) → List (List ℕ)
      tail [] = []
      tail (x ∷ xs) = xs

  -- The monitor reads the signal of the call.
  handle_read :
      (m : Monitor) (old : Signal) (p : List ℕ) (e : Event) (flow : Flow)
      → Fits e
      → p ≡ encode (signal_of m_id e)
      → (let r = read_signal p (m.error, old) in handle env (record m { error = r.0 }) r.1 true)
        ≡ flow
      → handle env m (signal_of m_id e) true ≡ flow
  handle_read m old p e flow fits q h =
      let read : read_signal p (m.error, old) ≡ (m.error, signal_of m_id e) =
        ap (λ b. read_signal b (m.error, old)) q
        ∙ read_signal-encode (signal_of m_id e) old m.error (signal_of-InRange e m_id small fits) in
      ap (λ r. handle env (record m { error = r.0 }) r.1 true) (sym read) ∙ h

  served_from :
      (w : World) (es done ahead later : List Event) (e : Event) (sig : Signal)
      (rest : List (List ℕ)) (flow : Flow)
      → es ≡ done ++ ahead
      → length w.answers + length ahead ≤ n + one_if w.waits
      → module_id_of w.client ≡ m_id
      → ahead ≡ e ∷ later
      → Handled (answer_of flow) (goes_on flow) rest done (e ∷ later)
      → IsAhead (served w sig rest flow) es
  served_from w es done ahead later e sig rest flow split room same_module first h = record {
    done = h.done';
    ahead = h.ahead';
    split = split ∙ ap (λ l. done ++ l) first ∙ h.same;
    bounded =
        let count = length-append w.answers (answer_of flow) in
        let fewer = h.answers_bound in
        let size : length ahead ≡ suc (length later) = ap length first in
        omega (arith, count, fewer, size, room);
    same_module = same_module;
    serving = h.goes;
  }

  serving_of :
      (o : Option Monitor) (m : Monitor) (packets : List (List ℕ)) (done ahead : List Event)
      → o ≡ some m
      → Serving o packets done ahead
      → (fs : List Frame) × Linked env m fs
        × Follows env.program (view m fs) c₀ (signals_of m_id done)
        × (packets ≡ packets_of m_id ahead)
  serving_of o m packets done ahead q h = subst (λ o. Serving o packets done ahead) q h

  served-IsAhead :
      (w : World) (es : List Event) (m : Monitor) (p : List ℕ) (rest : List (List ℕ)) (flow : Flow)
      → AllFit es
      → w.monitor ≡ some m
      → w.packets ≡ p ∷ rest
      → (let r = read_signal p (m.error, w.last_signal) in
          handle env (record m { error = r.0 }) r.1 true)
        ≡ flow
      → IsAhead w es
      → IsAhead (served w (read_signal p (m.error, w.last_signal)).1 rest flow) es
  served-IsAhead w es m p rest flow fit runs queued result h =
      let (fs, l, f, q) = serving_of w.monitor m w.packets h.done h.ahead runs h.serving in
      let (e, later, first, sent, others) = queue-cases h.ahead p rest (sym queued ∙ q) in
      let fits =
        (AllFit-append h.done (e ∷ later)
          (subst AllFit (h.split ∙ ap (λ l. h.done ++ l) first) fit)).1.0 in
      served_from w es h.done h.ahead later e (read_signal p (m.error, w.last_signal)).1 rest flow
        h.split h.bounded h.same_module first
        (handled m fs rest h.done later e flow l f others
          (handle_read m w.last_signal p e flow fits sent result))

  Interleaved-IsAhead :
      (start w : World) (es : List Event)
      → IsAhead start []
      → AllFit es
      → Interleaved env start w es
      → IsAhead w es
  Interleaved-IsAhead start w es h fit begin = h
  Interleaved-IsAhead start w _ h fit (writes {w = w'} {es = es} e t idle) =
      written-IsAhead w' es e idle
        (Interleaved-IsAhead start w' es h (AllFit-append es (e ∷ []) fit).0 t)
  Interleaved-IsAhead start w es h fit (passes {w = w'} got rest t waiting answered ok) =
      passed-IsAhead w' es got rest waiting answered ok (Interleaved-IsAhead start w' es h fit t)
  Interleaved-IsAhead start w es h fit (serves {w = w'} m p rest flow t runs queued result) =
      served-IsAhead w' es m p rest flow fit runs queued result
        (Interleaved-IsAhead start w' es h fit t)

-- Let the monitor meet the invariant of a run, let the stacks stay in place, let the ids of the
-- client fit, and let `n` answers be sent in advance. In whatever order the client and the
-- monitor then act, when the client has got past some calls, the signals of all of them but the
-- last `n` at most have been handled and are allowed: they are steps of the specification, one
-- after the other, from the configuration of the monitor, or a whole run from it.
pub all_but_ahead-Allowed :
    (env : Env) (m : Monitor) (sig : Signal) (st : Injected) (fs : List Frame) (n : ℕ) (w : World)
    (es : List Event)
    → StaysInPlace env
    → Linked env m fs
    → st.cs.module_id < 2 ^ 16
    → AllFit es
    → Interleaved env (before st m sig n) w es
    → w.waits ≡ false
    → (done : List Event) × (ahead : List Event) × (es ≡ done ++ ahead)
      × (length ahead ≤ n)
      × Allowed env.program (view m fs) (signals_of st.cs.module_id done)
all_but_ahead-Allowed env m sig st fs n w es place l small fit t idle =
    let c₀ = view m fs in
    let first : IsAhead env place c₀ st.cs.module_id n small (before st m sig n) [] = record {
      done = [];
      ahead = [];
      split = refl;
      bounded = let size = length-replicate n cfi_ok in omega (arith, size);
      same_module = refl;
      serving = (fs, l, stop, refl);
    } in
    let h =
      Interleaved-IsAhead env place c₀ st.cs.module_id n small (before st m sig n) w es first fit
        t in
    let room = h.bounded in
    let none_waits : one_if w.waits ≡ 0 = ap one_if idle in
    (
      h.done,
      h.ahead,
      h.split,
      omega (arith, room, none_waits),
      Serving-Allowed env place c₀ st.cs.module_id n small w.monitor w.packets h.done h.ahead
          h.serving,
    )
