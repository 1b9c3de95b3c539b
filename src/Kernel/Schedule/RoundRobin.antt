-- ===== src/Kernel/Schedule/RoundRobin.antt =====
-- `schedule` goes round the table: it runs the first runnable process behind the current one.
use native.Mathlib.Decide.{ℕ_discrete}
use cs61_f16_psets_team_md.Base.{
  ℕ, zero, suc, ◌+◌, ◌-◌, ◌%◌, ◌≤◌, ◌<◌, ◌≡◌, sym, ◌∙◌, ap, subst, arith, true, false, some,
  Bool-cases, inl, inr,
}
use cs61_f16_psets_team_md.Kernel.Schedule.{nproc, States, is_runnable, schedule}

-- The process that the rounds reach after `d` steps from `pid`.
abbrev pub behind : ℕ → ℕ → ℕ
behind pid d = (pid + d) % nproc

-- `pid'` is runnable, and no process from the one behind `pid` up to it is.
pub record IsNext (states : States) (pid fuel pid' : ℕ) : Type 0 where
  pub steps : ℕ
  pub positive : 0 < steps
  pub within : steps ≤ fuel
  pub reached : pid' ≡ behind pid steps
  pub runs : is_runnable (states pid') ≡ true
  pub none_before : (d : ℕ) → 0 < d → d < steps → is_runnable (states (behind pid d)) ≡ false

behind-behind : (pid d : ℕ) → behind (behind pid 1) d ≡ behind pid (d + 1)
behind-behind pid d = omega arith

IsNext-later :
    (states : States) (pid fuel pid' : ℕ)
    → is_runnable (states (behind pid 1)) ≡ false
    → IsNext states (behind pid 1) fuel pid'
    → IsNext states pid (suc fuel) pid'
IsNext-later states pid fuel pid' idle n = record {
  steps = n.steps + 1;
  positive = omega arith;
  within = omega (arith, n.within);
  reached = n.reached ∙ behind-behind pid n.steps;
  runs = n.runs;
  none_before = λ d lo hi. elim (ℕ_discrete d 1) [
    | yes e ↦ rw e idle
    | no ne ↦
        subst (λ k. is_runnable (states k) ≡ false)
          (behind-behind pid (d - 1) ∙ ap (behind pid) (later d lo))
          (n.none_before (d - 1) (omega arith) (omega arith))
  ];
}
  where
    later : (d : ℕ) → 0 < d → d - 1 + 1 ≡ d
    later d h = omega arith

-- What `schedule` returns is the next runnable process behind the current one, in cyclic order.
pub schedule-IsNext :
    (fuel : ℕ) (states : States) (pid pid' : ℕ)
    → schedule fuel states pid ≡ some pid'
    → IsNext states pid fuel pid'
unfolding schedule
schedule-IsNext zero states pid pid' h = cc
schedule-IsNext (suc fuel) states pid pid' h =
    elim (Bool-cases (is_runnable (states (behind pid 1)))) [
      | inl e ↦
          let found : some (behind pid 1) ≡ some pid' = rw e at h in
          let same : behind pid 1 ≡ pid' = cc in
          record {
            steps = 1;
            positive = omega arith;
            within = omega arith;
            reached = sym same;
            runs = rw (sym same) e;
            none_before = λ d lo hi. absurd (omega arith);
          }
      | inr e ↦
          IsNext-later states pid fuel pid' e
            (schedule-IsNext fuel states (behind pid 1) pid' (rw e at h))
    ]

schedule-some :
    (fuel : ℕ) (states : States) (pid d : ℕ)
    → d < fuel
    → is_runnable (states (behind pid (d + 1))) ≡ true
    → (next : ℕ) × (schedule fuel states pid ≡ some next)
unfolding schedule
schedule-some zero states pid d lt r = elim lt [ ]
schedule-some (suc fuel) states pid zero lt r = (behind pid 1, rw r)
schedule-some (suc fuel) states pid (suc d) lt r =
    elim (Bool-cases (is_runnable (states (behind pid 1)))) [
      | inl e ↦ (behind pid 1, rw e)
      | inr e ↦
          let again = subst (λ k. is_runnable (states k) ≡ true) (step pid d) r in
          let (next, run) = schedule-some fuel states (behind pid 1) d (omega arith) again in
          (next, rw e run)
    ]
  where
    step : (pid d : ℕ) → behind pid (suc d + 1) ≡ behind (behind pid 1) (d + 1)
    step pid d = omega arith

-- With a runnable process in the table one turn of `nproc` rounds finds one, whichever process is
-- current; the one found is the next runnable process in cyclic order.
pub schedule_total :
    (states : States) (pid pid' : ℕ)
    → pid' < nproc
    → is_runnable (states pid') ≡ true
    → (next : ℕ) × (schedule nproc states pid ≡ some next) × IsNext states pid nproc next
schedule_total states pid pid' lt r =
    let d = 15 - (pid + 16 - pid') % 16 in
    let at_pid' : pid' ≡ behind pid (d + 1) = omega arith in
    let (next, run) =
      schedule-some nproc states pid d (omega arith)
        (subst (λ k. is_runnable (states k) ≡ true) at_pid' r) in
    (next, run, schedule-IsNext nproc states pid next run)
