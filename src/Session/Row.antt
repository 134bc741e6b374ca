-- ===== src/Session/Row.antt =====
-- monitor/src/monitor_load.c and monitor/src/main.c: the calls of `monitor_run` in a row, against
-- the specification of a run.
use picon.Base.{
  ℕ, zero, suc, ◌≤◌, ◌≡◌, ◌⊎◌, refl, ◌∙◌, ap, ◌==◌, List, [], ◌∷◌, ◌++◌, length, some, arith,
  Bool-cases, inl, inr,
}
use picon.Tables.{MonitorData}
use picon.Load.Rule.{All}
use picon.Stack.Laws.{InPlace}
use picon.Run.Loop.{Outcome, finished, monitor_run}
use picon.Run.Spec.{Completes, idle}
use picon.Run.Whole.{AllWhole, signals, monitor_run_sound}
use picon.Session.{Options, Client, env_of, Runs, ran, waits, faults, run_client, run_clients}

-- For one run, the stacks stay where they are, no block is allocated at NULL, and packets are
-- whole.
pub record IsSteady (c : Client) : Type 0 where
  pub calls_stay : InPlace c.calls_realloc
  pub blocks_stay : InPlace c.blocks_realloc
  pub calls_live : (b : ℕ) → c.calls_calloc ≡ some b → 1 ≤ b
  pub blocks_live : (b : ℕ) → c.blocks_calloc ≡ some b → 1 ≤ b
  pub packets_whole : AllWhole c.rounds

-- The signals of a run are a whole walk through the graphs.
abbrev pub Walks : MonitorData → Client → Type 0
Walks mon c = Completes mon idle (signals c.rounds)

pub Runs-cases :
    (r : Runs) → (r ≡ waits) ⊎ (r ≡ faults) ⊎ ((err : ℕ) × (cs : List Client) × (r ≡ ran err cs))
Runs-cases waits = inl refl
Runs-cases faults = inr (inl refl)
Runs-cases (ran err cs) = inr (inr (err, cs, refl))

pub All-prefix {ℓ κ} :
    {A : Type ℓ} (P : A → Type κ) (xs ys : List A) → All P (xs ++ ys) → All P xs × All P ys
All-prefix P [] ys h = (tt, h)
All-prefix P (x ∷ xs) ys h = let (a, b) = All-prefix P xs ys h.1 in ((h.0, a), b)

module _ (options : Options) (mon : MonitorData) where
  -- A run that returned 0.
  abbrev pub Returned : Client → Type 0
  Returned c = monitor_run (env_of options mon c) c.uninitialised c.rounds ≡ finished 0

  Returned-Walks : (c : Client) → IsSteady c → Returned c → Walks mon c
  Returned-Walks c s h =
      monitor_run_sound (env_of options mon c) c.uninitialised c.rounds
        (record { calls_stay = s.calls_stay; blocks_stay = s.blocks_stay })
        (record { calls_live = s.calls_live; blocks_live = s.blocks_live }) s.packets_whole h

  pub All-Walks : (cs : List Client) → All IsSteady cs → All Returned cs → All (Walks mon) cs
  All-Walks [] s h = tt
  All-Walks (c ∷ cs) s h = (Returned-Walks c s.0 h.0, All-Walks cs s.1 h.1)

  -- A call takes one run.
  pub run_client_takes :
      (cs cs' : List Client) (err : ℕ)
      → run_client options mon cs ≡ ran err cs'
      → (c : Client) × (cs ≡ c ∷ cs')
        × (monitor_run (env_of options mon c) c.uninitialised c.rounds ≡ finished err)
  unfolding run_client
  run_client_takes [] cs' err h = absurd (ground arith)
  run_client_takes (c ∷ cs) cs' err h =
      by_outcome (monitor_run (env_of options mon c) c.uninitialised c.rounds) refl
    where
      by_outcome :
          (o : Outcome)
          → monitor_run (env_of options mon c) c.uninitialised c.rounds ≡ o
          → (c' : Client) × (c ∷ cs ≡ c' ∷ cs')
            × (monitor_run (env_of options mon c') c'.uninitialised c'.rounds ≡ finished err)
      by_outcome (Outcome.finished k) e = (c, ground arith, ground arith)
      by_outcome (Outcome.waiting m) e = absurd (ground arith)
      by_outcome Outcome.crashed e = absurd (ground arith)

  -- What `run_clients` leaves is what its calls did not take; where it returns 0, all calls did.
  pub run_clients_rest :
      (nb : ℕ) (cs cs' : List Client) (err : ℕ)
      → run_clients options nb mon cs ≡ ran err cs'
      → (done : List Client) × (cs ≡ done ++ cs')
  unfolding run_clients
  run_clients_rest zero cs cs' err h = ([], ground arith)
  run_clients_rest (suc nb) cs cs' err h = elim (Runs-cases (run_client options mon cs)) [
    | inl e ↦ absurd (ground arith)
    | inr (inl e) ↦ absurd (ground arith)
    | inr (inr (k, left, e)) ↦
        let (c, taken, r) = run_client_takes cs left k e in
        elim (Bool-cases (k == 0)) [
          | inr z ↦ let same : left ≡ cs' = ground arith in (c ∷ [], taken ∙ ap (λ l. c ∷ l) same)
          | inl z ↦
              let (done, split) = run_clients_rest nb left cs' err (ground arith) in
              (c ∷ done, taken ∙ ap (λ l. c ∷ l) split)
        ]
  ]

  pub run_clients-Returned :
      (nb : ℕ) (cs cs' : List Client)
      → run_clients options nb mon cs ≡ ran 0 cs'
      → (done : List Client) × (cs ≡ done ++ cs') × (length done ≡ nb) × All Returned done
  unfolding run_clients
  run_clients-Returned zero cs cs' h = ([], ground arith, refl, tt)
  run_clients-Returned (suc nb) cs cs' h = elim (Runs-cases (run_client options mon cs)) [
    | inl e ↦ absurd (ground arith)
    | inr (inl e) ↦ absurd (ground arith)
    | inr (inr (k, left, e)) ↦
        let (c, taken, r) = run_client_takes cs left k e in
        elim (Bool-cases (k == 0)) [
          | inr z ↦ absurd (ground arith)
          | inl z ↦
              let (done, split, counted, all) = run_clients-Returned nb left cs' (ground arith) in
              let none_left : k ≡ 0 = ground arith in
              (
                c ∷ done,
                taken ∙ ap (λ l. c ∷ l) split,
                ap suc counted,
                (r ∙ ap (λ n. finished n) none_left, all),
              )
        ]
  ]
