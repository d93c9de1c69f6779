-- ===== src/Fernet/Schedule.antt =====
-- The loops of `generate`: they end, and they schedule exactly the host's rotations in the span.
use irnmn.Prelude.{
  ℕ, zero, suc, ◌+◌, ◌≤◌, ◌<◌, ◌≡◌, refl, List, [], ◌∷◌, none, some, leb, arith, Bool-cases, inl,
  inr,
}
use irnmn.Fernet.{Cron, times_loop}

module _ (entry : ℕ → Cron) (span rotation step : ℕ) where
  -- The rotations from a time on that end within the span, one entry for each, in order.
  pub data Scheduled : ℕ → List Cron → Type 0 where
    over : {t : ℕ} → span < t + rotation → Scheduled t []
    rotates :
        {t : ℕ} {l : List Cron}
        → t + rotation ≤ span
        → Scheduled (t + step) l
        → Scheduled t (entry t ∷ l)

  -- With a step of at least a minute, fuel beyond the minutes that are left is enough.
  pub times_loop-Scheduled :
      (fuel t : ℕ)
      → 0 < step
      → span < fuel + t
      → (l : List Cron) × (times_loop (suc fuel) entry span rotation step t ≡ some l)
        × Scheduled t l
  unfolding times_loop
  times_loop-Scheduled zero t forward enough = ([], ground arith, over (omega arith))
  times_loop-Scheduled (suc fuel) t forward enough =
      let (l, runs, rest) = times_loop-Scheduled fuel (t + step) forward (omega arith) in
      elim (Bool-cases (leb (t + rotation) span)) [
        | inl more ↦ (entry t ∷ l, rw (more, runs), rotates (ground arith) rest)
        | inr ends ↦ ([], rw ends, over (ground arith))
      ]

  -- With a step of no minutes, a rotation that fits the span is scheduled over and over: no fuel
  -- is enough.
  pub times_loop_stuck :
      (fuel t : ℕ)
      → step ≡ 0
      → t + rotation ≤ span
      → times_loop fuel entry span rotation step t ≡ none
  unfolding times_loop
  times_loop_stuck zero t still fits = refl
  times_loop_stuck (suc fuel) t still fits = ground (arith, times_loop_stuck fuel (t + step) still)
