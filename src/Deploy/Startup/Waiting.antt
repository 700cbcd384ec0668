-- ===== src/Deploy/Startup/Waiting.antt =====
-- The wait for the frontend ends: the clock reaches the deadline before the fuel runs out.
use doris_ducklake.Deploy.Readiness.{startup_late}
use doris_ducklake.Deploy.Startup.Steps.{wait_round-AllRun}
use doris_ducklake.Deploy.Startup.{wait_ready, wait_round}
use doris_ducklake.Deploy.Exec.{continue, pure, ◌>>=◌}
use doris_ducklake.Deploy.Ran.{bind-ok}
use doris_ducklake.Prelude.{
  Bool-cases, Error, Guard, List, Option, Result, [], ap, arith, err, inl, inr, leb, none, ok, refl,
  some, subst, suc, zero, ℕ, ◌*◌, ◌+◌, ◌<◌, ◌∷◌, ◌≡◌, ◌≢◌, ◌≤◌,
}
use doris_ducklake.Deploy.Claim.{Call, Deployment, Step, docker, event}
use doris_ducklake.Deploy.Running.{
  Runs, asked, configured, gated, helped, here, noted, paused, readied,
}
use doris_ducklake.Deploy.Host.{
  Host, Settings, before_deadline, check_deadline, or_again, pause, poll, sleep_command, time_now,
  update,
}

-- The clock does not go back while commands run, and a pause takes its two seconds.
pub record IsClock (clock : List Call → ℕ) : Type 0 where
  pub forward : (c : Call) (calls : List Call) → clock calls ≤ clock (c ∷ calls)
  pub slept : (calls : List Call) → clock calls + 2 ≤ clock ((sleep_command, ok []) ∷ calls)

-- Time does not go back between two states.
abbrev pub Forward : Host → Deployment → Deployment → Type 0
Forward h d e = h.clock d.calls ≤ h.clock e.calls

pub Runs-Forward :
    {h : Host} {s : Settings} {d e : Deployment} → IsClock h.clock → Runs h s d e → Forward h d e
unfolding docker event update pause
Runs-Forward ticks here = omega arith
Runs-Forward {h = h} ticks (asked {e} r c) =
    omega (arith, Runs-Forward ticks r, ticks.forward (c, h.daemon e.calls c) e.calls)
Runs-Forward ticks (noted r n t) = Runs-Forward ticks r
Runs-Forward ticks (paused {e} r) = omega (arith, Runs-Forward ticks r, ticks.slept e.calls)
Runs-Forward ticks (configured r c) = Runs-Forward ticks r
Runs-Forward ticks (readied r p) = Runs-Forward ticks r
Runs-Forward ticks (gated r n g) = Runs-Forward ticks r
Runs-Forward ticks (helped r hs) = Runs-Forward ticks r

module _ (h : Host) (s : Settings) (ticks : IsClock h.clock) {A : Type 0} (late : Error)
    (round : Step (Option A)) (goes_on : (d : Deployment) → Forward h d (round d).0) where
  -- After a deadline check that does not raise, two seconds have passed, and it was not yet time.
  check_deadline-later :
      (deadline : ℕ) (d e : Deployment)
      → check_deadline h s late deadline d ≡ (e, ok tt)
      → (h.clock d.calls < deadline) × (h.clock d.calls + 2 ≤ h.clock e.calls)
  unfolding check_deadline ◌>>=◌ time_now pure before_deadline pause
  check_deadline-later deadline d e p = elim (Bool-cases (leb deadline (h.clock d.calls))) [
    | inl at_end ↦ cc (rw at_end at p)
    | inr early ↦
        let slept = ap (λ (x : Deployment × Guard). x.0.calls) (rw early at p) in
        (ground arith, rw (← slept) (ticks.slept d.calls))
  ]

  -- How a round ends: it raises, it finds something, or the next rounds follow.
  rounds-step :
      (fuel deadline : ℕ) (p : Deployment × Result (Option A)) (e : Deployment)
      → continue p (λ found.
        or_again found
          (check_deadline h s late deadline >>= (λ _. poll h s late round fuel deadline)))
        ≡ (e, ok none)
      → (d : Deployment) × (p ≡ (d, ok none))
        × ((check_deadline h s late deadline >>= (λ _. poll h s late round fuel deadline)) d
            ≡ (e, ok none))
  unfolding pure
  rounds-step fuel deadline (d, err raised) e r = cc
  rounds-step fuel deadline (d, ok (some a)) e r = cc
  rounds-step fuel deadline (d, ok none) e r = (d, refl, r)

  one-round :
      (fuel deadline : ℕ) (d e : Deployment)
      → poll h s late round (suc fuel) deadline d ≡ (e, ok none)
      → (d' : Deployment) × (h.clock d.calls < deadline)
        × (h.clock d.calls + 2 ≤ h.clock d'.calls)
        × (poll h s late round fuel deadline d' ≡ (e, ok none))
  unfolding poll
  one-round fuel deadline d e ended =
      let (d₁, is_round, again) = rounds-step fuel deadline (round d) e (unfold ◌>>=◌ in ended) in
      let (d₂, _, passed, after) = bind-ok (check_deadline h s late deadline) _ d₁ again in
      let (early, slept) = check_deadline-later deadline d₁ d₂ passed in
      let forwards =
        subst (λ (x : Deployment × Result (Option A)). h.clock d.calls ≤ h.clock x.0.calls) is_round
          (goes_on d) in
      (d₂, omega arith, omega arith, after)

  -- As many rounds as half the seconds to the deadline are enough.
  pub poll-ends :
      (fuel deadline : ℕ) (d e : Deployment)
      → deadline ≤ h.clock d.calls + 2 * fuel
      → poll h s late round (suc fuel) deadline d ≢ (e, ok none)
  poll-ends zero deadline d e enough ended =
      let (d', early, slept, after) = one-round zero deadline d e ended in omega arith
  poll-ends (suc fuel) deadline d e enough ended =
      let (d', early, slept, after) = one-round (suc fuel) deadline d e ended in
      poll-ends fuel deadline d' e (omega arith) after

-- If the clock does not go back while commands run, and each pause takes its two seconds, then
-- the fuel of wait_ready suffices: from every state it ends by itself, with a frontend that is
-- ready or with an exception.
pub wait_ready-ends :
    (h : Host) (s : Settings)
    → IsClock h.clock
    → (d e : Deployment) → wait_ready h s d ≢ (e, ok none)
unfolding wait_ready ◌>>=◌ time_now
wait_ready-ends h s ticks d e ended =
    poll-ends h s ticks startup_late (wait_round h s)
      (λ d. Runs-Forward ticks (wait_round-AllRun d)) s.startup_timeout
      (h.clock d.calls + s.startup_timeout) d e (omega arith) ended
