-- ===== src/Injected/Traces.antt =====
-- Calls in a row, their signals and their packets.
use picon.Base.{◌⊎◌, ℕ, ◌≡◌, refl, ap, Bool, true, false, List, [], ◌∷◌, ◌++◌}
use picon.Signal.{Signal, encode}
use picon.Tables.{MonitorData}
use picon.Run.Spec.{Config, Step, Completes, IsLast, last, more}
use picon.Injected.{Injected, Event}
use picon.Injected.Follows.{Follows, stop, step, signal_of, signals_of, AllFit}

-- Signals that are steps of the specification, one after the other, or a whole run.
abbrev pub Allowed : MonitorData → Config → List Signal → Type 0
Allowed p c sigs = ((c' : Config) × Follows p c' c sigs) ⊎ Completes p c sigs

-- The packets of calls.
abbrev pub packets_of : ℕ → List Event → List (List ℕ)
packets_of m_id [] = []
packets_of m_id (e ∷ es) = encode (signal_of m_id e) ∷ packets_of m_id es

abbrev pub module_id_of : Injected → ℕ
module_id_of st = st.cs.module_id

abbrev pub one_if : Bool → ℕ
one_if true = 1
one_if false = 0

pub AllFit-append : (xs ys : List Event) → AllFit (xs ++ ys) → AllFit xs × AllFit ys
AllFit-append [] ys h = (tt, h)
AllFit-append (x ∷ xs) ys h = let (a, b) = AllFit-append xs ys h.1 in ((h.0, a), b)

pub packets_of-append :
    (m_id : ℕ) (xs ys : List Event)
    → packets_of m_id (xs ++ ys) ≡ packets_of m_id xs ++ packets_of m_id ys
packets_of-append m_id [] ys = refl
packets_of-append m_id (x ∷ xs) ys =
    ap (λ l. encode (signal_of m_id x) ∷ l) (packets_of-append m_id xs ys)

pub signals_of-append :
    (m_id : ℕ) (xs : List Event) (e : Event)
    → signals_of m_id (xs ++ e ∷ []) ≡ signals_of m_id xs ++ signal_of m_id e ∷ []
signals_of-append m_id [] e = refl
signals_of-append m_id (x ∷ xs) e = ap (λ l. signal_of m_id x ∷ l) (signals_of-append m_id xs e)

pub append_one : (xs ys : List Event) (e : Event) → xs ++ e ∷ ys ≡ (xs ++ e ∷ []) ++ ys
append_one [] ys e = refl
append_one (x ∷ xs) ys e = ap (λ l. x ∷ l) (append_one xs ys e)

pub append_assoc : (xs ys zs : List Event) → (xs ++ ys) ++ zs ≡ xs ++ (ys ++ zs)
append_assoc [] ys zs = refl
append_assoc (x ∷ xs) ys zs = ap (λ l. x ∷ l) (append_assoc xs ys zs)

pub Follows-step :
    (p : MonitorData) (c' c d : Config) (sigs : List Signal) (sig : Signal)
    → Follows p c' c sigs
    → Step p sig c' d
    → Follows p d c (sigs ++ sig ∷ [])
Follows-step p c' c d [] sig stop s = step s stop
Follows-step p c' c d (x ∷ sigs) sig (step {d = mid} t f) s =
    step t (Follows-step p c' mid d sigs sig f s)

pub Follows-Completes :
    (p : MonitorData) (c' c : Config) (sigs : List Signal) (sig : Signal)
    → Follows p c' c sigs
    → IsLast p sig c'
    → Completes p c (sigs ++ sig ∷ [])
Follows-Completes p c' c [] sig stop s = last s
Follows-Completes p c' c (x ∷ sigs) sig (step t f) s =
    more t (Follows-Completes p c' _ sigs sig f s)
