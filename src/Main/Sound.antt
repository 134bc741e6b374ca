-- ===== src/Main/Sound.antt =====
-- monitor/src/main.c: what an exit status of 0 says.
use picon.Base.{
  ℕ, zero, suc, ◌+◌, ◌%◌, ◌^◌, ◌<◌, ◌≡◌, refl, ◌∙◌, sym, ap, [], none, get_elem?, Bool, false, not,
  ◌||◌, ◌==◌, List, ◌∷◌, ◌++◌, length, some, arith, Bool-cases, Option-cases, inl, inr,
}
use mathlib.Core.Path.{subst}
use picon.Tables.{MonitorData, ModuleData}
use picon.Load.Rule.{All}
use picon.Session.{
  Options, Client, ran, Session, returned, waiting, faulted, out_of_fuel, run_client, monitor_load,
}
use picon.Run.Loop.{finished}
use picon.Session.Row.{
  IsSteady, Walks, Runs-cases, All-prefix, Returned, All-Walks, run_client_takes,
  run_clients-Returned,
}
use picon.Session.Rest.{monitor_load_rest}
use picon.Main.{
  Invocation, System, monitored, count_finis, exit_monitor, run_program, after_loading,
  monitor_process, preload_answers, fork_monitor, main_of,
}

module _ (options : Options) where
  -- The run of the program and those of its fini functions, all of which return 0.
  run_program-Returned :
      (err : ℕ) (mon : MonitorData) (cs cs' : List Client)
      → run_program options err mon cs ≡ ran 0 cs'
      → (nb : ℕ) × (count_finis mon.nb_modules 0 0 mon ≡ some nb)
        × ((done : List Client) × (cs ≡ done ++ cs')
            × (length done ≡ suc nb)
            × All (Returned options mon) done)
  unfolding run_program
  run_program-Returned err mon cs cs' h = elim (Runs-cases (run_client options mon cs)) [
    | inl e ↦ absurd (ground arith)
    | inr (inl e) ↦ absurd (ground arith)
    | inr (inr (k, left, e)) ↦
        let (c, taken, r) = run_client_takes options mon cs left k e in
        elim (Bool-cases (k == 0)) [
          | inr z ↦ absurd (ground arith)
          | inl z ↦ elim (Option-cases (count_finis mon.nb_modules 0 0 mon)) [
            | inl f ↦ absurd (ground arith)
            | inr (nb, f) ↦
                let (done, split, counted, all) =
                  run_clients-Returned options mon nb left cs' (ground arith) in
                let none_left : k ≡ 0 = ground arith in
                (
                  nb,
                  f,
                  (
                    c ∷ done,
                    taken ∙ ap (λ l. c ∷ l) split,
                    ap suc counted,
                    (r ∙ ap (λ n. finished n) none_left, all),
                  ),
                )
          ]
        ]
  ]

  exit_monitor_status :
      (err k : ℕ) (mon : MonitorData) (killed : Bool)
      → exit_monitor err mon ≡ monitored k killed
      → (err ≡ k) × (not (err == 0) ≡ killed)
  unfolding exit_monitor
  exit_monitor_status err k mon killed h = ground arith

  after_loading_sound :
      (answers : List Bool) (s : Session) (killed : Bool)
      → after_loading options answers s ≡ monitored 0 killed
      → (mon : MonitorData) × (cs : List Client) × (cs' : List Client) × (s ≡ returned 0 mon cs)
        × (killed ≡ false)
        × (run_program options
              (preload_answers options.nb_preload_monitor_ok_answers answers)
              mon
              cs
            ≡ ran 0 cs')
  unfolding after_loading
  after_loading_sound answers waiting killed h = absurd (ground arith)
  after_loading_sound answers faulted killed h = absurd (ground arith)
  after_loading_sound answers out_of_fuel killed h = absurd (ground arith)
  after_loading_sound answers (returned err mon cs) killed h = elim (Bool-cases (err == 0)) [
    | inr z ↦
        let end : exit_monitor err mon ≡ monitored 0 killed = ground arith in
        let same = exit_monitor_status err 0 mon killed end in absurd (ground arith)
    | inl z ↦
        let before = preload_answers options.nb_preload_monitor_ok_answers answers in
        elim (Runs-cases (run_program options before mon cs)) [
          | inl e ↦ absurd (ground arith)
          | inr (inl e) ↦ absurd (ground arith)
          | inr (inr (k, left, e)) ↦
              let end : exit_monitor k mon ≡ monitored 0 killed = ground arith in
              let same = exit_monitor_status k 0 mon killed end in
              let none_left : err ≡ 0 = ground arith in
              (
                mon,
                cs,
                left,
                ap (λ n. returned n mon cs) none_left,
                ground arith,
                e ∙ ap (λ n. ran n left) same.0,
              )
        ]
  ]

-- The fini functions that the first modules of a list count.
abbrev sum_finis : ℕ → List ModuleData → ℕ
sum_finis zero ms = 0
sum_finis (suc n) [] = 0
sum_finis (suc n) (m ∷ ms) = m.nb_entrypoint_finis + sum_finis n ms

-- Those of the modules of the program.
abbrev pub total_finis : MonitorData → ℕ
total_finis mon = elim mon.modules [ none ↦ 0 | some ms ↦ sum_finis mon.nb_modules ms ]

abbrev over : MonitorData → List ModuleData → MonitorData
over mon ms = record mon { modules = some ms }

-- Modules before those that are counted do not matter.
count_finis-later :
    (mon : MonitorData) (rounds i nb : ℕ) (m : ModuleData) (ms : List ModuleData)
    → count_finis rounds (suc i) nb (over mon (m ∷ ms)) ≡ count_finis rounds i nb (over mon ms)
unfolding count_finis
count_finis-later mon zero i nb m ms = refl
count_finis-later mon (suc rounds) i nb m ms = elim (Option-cases (get_elem? ms i)) [
  | inl n ↦ ground arith
  | inr (x, q) ↦
      let next = (nb + x.nb_entrypoint_finis) % 2 ^ 32 in
      let place : suc i + 1 ≡ suc (i + 1) = omega arith in
      let rest : count_finis rounds (suc i + 1) next (over mon (m ∷ ms))
          ≡ count_finis rounds (i + 1) next (over mon ms) =
        ap (λ j. count_finis rounds j next (over mon (m ∷ ms))) place
        ∙ count_finis-later mon rounds (i + 1) next m ms in
      ground (arith, rest)
]

count_finis-sum :
    (mon : MonitorData) (rounds nb n : ℕ) (ms : List ModuleData)
    → nb < 2 ^ 32
    → count_finis rounds 0 nb (over mon ms) ≡ some n
    → n ≡ (nb + sum_finis rounds ms) % 2 ^ 32
unfolding count_finis
count_finis-sum mon zero nb n ms w h = let same : nb ≡ n = ground arith in omega (arith, same, w)
count_finis-sum mon (suc rounds) nb n [] w h = absurd (ground arith)
count_finis-sum mon (suc rounds) nb n (m ∷ ms) w h =
    let next = (nb + m.nb_entrypoint_finis) % 2 ^ 32 in
    let rest : count_finis rounds 1 next (over mon (m ∷ ms)) ≡ some n = h in
    let tail =
      count_finis-sum mon rounds next n ms (omega arith)
        (sym (count_finis-later mon rounds 0 next m ms) ∙ rest) in
    omega (arith, tail)

count_finis-none :
    (mon : MonitorData) (k n : ℕ) → mon.modules ≡ none → count_finis k 0 0 mon ≡ some n → n ≡ 0
unfolding count_finis
count_finis-none mon zero n e h = ground arith
count_finis-none mon (suc k) n e h = absurd (ground arith)

-- The count of the code is their number, modulo 2^32.
count_finis-total :
    (mon : MonitorData) (n : ℕ)
    → count_finis mon.nb_modules 0 0 mon ≡ some n
    → n ≡ total_finis mon % 2 ^ 32
count_finis-total mon n h = elim (Option-cases mon.modules) [
  | inl e ↦
      let zero_sum : total_finis mon ≡ 0 = rw e refl in
      count_finis-none mon mon.nb_modules n e h ∙ sym (ap (λ t. t % 2 ^ 32) zero_sum)
  | inr (ms, e) ↦
      let whole : mon ≡ over mon ms = ap (λ o. record mon { modules = o }) e in
      let counted =
        count_finis-sum mon mon.nb_modules 0 n ms (omega arith)
          (ap (count_finis mon.nb_modules 0 0) (sym whole) ∙ h) in
      let sum : total_finis mon ≡ sum_finis mon.nb_modules ms = rw e refl in
      omega (arith, counted, sum)
]

-- The options with which the monitor runs.
abbrev pub options_of : Options → Invocation → Options
options_of options v = record options { sm_trace = v.env_sm_trace || options.sm_trace }

main_monitors :
    (options : Options) (fuel : ℕ) (v : Invocation) (s : System) (k : ℕ) (killed : Bool)
    → main_of options fuel v s ≡ monitored k killed
    → monitor_process (options_of options v) fuel s ≡ monitored k killed
unfolding main_of fork_monitor
main_monitors options fuel v s k killed h = ground arith

process_loads :
    (options : Options) (fuel : ℕ) (s : System) (killed : Bool)
    → monitor_process options fuel s ≡ monitored 0 killed
    → after_loading options s.answers (monitor_load options fuel s.event s.deliveries s.clients)
      ≡ monitored 0 killed
unfolding monitor_process exit_monitor
process_loads options fuel s killed h = ground arith

-- The monitor exits with status 0 only if `monitor_load` returned 0, and the run of the program
-- was made and as many more as the loaded modules count fini functions in all, modulo 2^32, each
-- a whole walk through the call graph and the control flow graphs that were loaded; it then has
-- not killed the client. That is so if in each run the stacks stay in place, no block is
-- allocated at NULL and packets are whole.
pub main_sound :
    (options : Options) (fuel : ℕ) (v : Invocation) (s : System) (killed : Bool)
    → All IsSteady s.clients
    → main_of options fuel v s ≡ monitored 0 killed
    → (mon : MonitorData) × (cs : List Client) × (monitor_load
          (options_of options v)
          fuel
          s.event
          s.deliveries
          s.clients
        ≡ returned 0 mon cs)
      × (killed ≡ false)
      × ((done : List Client) × (cs' : List Client) × (cs ≡ done ++ cs')
          × (length done ≡ suc (total_finis mon % 2 ^ 32))
          × All (Walks mon) done)
main_sound options fuel v s killed steady h =
    let traced = options_of options v in
    let loading = monitor_load traced fuel s.event s.deliveries s.clients in
    let (mon, cs, cs', loaded, spared, program) =
      after_loading_sound traced s.answers loading killed
        (process_loads traced fuel s killed (main_monitors options fuel v s 0 killed h)) in
    let (nb, counted, (done, split, sized, all)) =
      run_program-Returned traced (preload_answers options.nb_preload_monitor_ok_answers s.answers)
        mon cs cs' program in
    let (before, used) =
      monitor_load_rest traced fuel s.event mon s.deliveries s.clients cs 0 loaded in
    let left = (All-prefix IsSteady before cs (subst (λ l. All IsSteady l) (used) steady)).1 in
    let ours = (All-prefix IsSteady done cs' (subst (λ l. All IsSteady l) (split) left)).0 in
    (
      mon,
      cs,
      loaded,
      spared,
      (
        done,
        cs',
        split,
        sized ∙ ap suc (count_finis-total mon nb counted),
        All-Walks traced mon done ours all,
      ),
    )
