-- ===== src/PowerOps/Power/Settles.antt =====
-- `wait_power` of operations.py returns when the node keeps reporting the target state.
use irnmn.Prelude.{
  ℕ, suc, ◌+◌, ◌≤◌, ◌<◌, String, ◌≡◌, refl, Bool, true, false, leb, ltb, if◌then◌else◌, arith,
}
use irnmn.Effect.{ok, raise_if, lift, pure, continue, value_error, power_timeout}
use irnmn.Effect.Polling.{done, again, RoundAdvances, poll-Succeeds}
use irnmn.Effect.Post.{Succeeds, Succeeds-bind}
use irnmn.PowerOps.Cloud.{Node, Cloud}
use irnmn.PowerOps.Duration.{ℤ, attempts}
use irnmn.PowerOps.Lookup.{ironic_node}
use irnmn.PowerOps.Power.{PowerReply, power_round, wait_power}
use irnmn.PowerOps.Observe.{with_node, Reports}
use irnmn.PowerOps.Power.Stable.{judge-Reports}

-- Every read of a node answers, and reports the state with no BMC error.
abbrev pub IsSteady : {W : Type 0} → Cloud W → String → Type 0
IsSteady {W} cloud target =
    (n : Node) (w : W)
    → (n' : Node) × (w' : W) × (cloud.get_node n w ≡ (ok n', w')) × Reports target n'

module _ {W : Type 0} (cloud : Cloud W) (host target : String)
    (steady : IsSteady cloud target) where
  -- So many more observations are wanted.
  abbrev Wants : ℕ → ℕ → Node × ℕ → W → Type 0
  Wants needed k (n, stable) w = (stable + k ≡ needed) × (0 < k)

  counted :
      (needed k : ℕ) (n : Node) (stable : ℕ) (w : W) (reply : PowerReply) (b : Bool)
      → stable + suc k ≡ needed
      → leb needed (stable + 1) ≡ b
      → RoundAdvances (Wants needed) k (
          continue
            (if b then ok (done reply) else ok (again (stable + 1)))
            (λ v. pure (with_node n v))
            w)
  counted needed k n stable w reply true h e = tt
  counted needed k n stable w reply false h e = ground arith

  round-advances :
      (needed k : ℕ) (n : Node) (stable : ℕ) (w : W)
      → Wants needed (suc k) (n, stable) w
      → RoundAdvances (Wants needed) k (power_round cloud host target needed (n, stable) w)
  unfolding power_round
  round-advances needed k n stable w h =
      let (n', w', read, reports) = steady n w in
      rw (read, judge-Reports host target needed n' stable reports)
        (counted needed k n' stable w' _ (leb needed (stable + 1)) h.0 refl)

  -- If every read reports the target state, the host has one node, and the rounds that the timeout
  -- allows are at least the observations asked for (two or more), then `wait_power` returns.
  pub wait_power-Succeeds :
      (timeout interval : ℤ) (needed rounds : ℕ) (node : Node) (w w' : W)
      → 2 ≤ needed
      → ironic_node cloud host w ≡ (ok node, w')
      → attempts timeout interval ≡ ok rounds
      → needed ≤ rounds
      → Succeeds (wait_power cloud host target timeout interval needed w)
  unfolding wait_power
  wait_power-Succeeds timeout interval needed rounds node w w' two found allowed enough =
      Succeeds-bind (raise_if (ltb needed 2) (value_error "stable_observations must be at least 2"))
        _ w (ground arith)
        (Succeeds-bind (ironic_node cloud host) _ w found (
          Succeeds-bind (lift (attempts timeout interval)) _ w' (ground arith) (
            poll-Succeeds (cloud.sleep interval) (power_round cloud host target needed)
              (power_timeout "power state was not stable before timeout") (Wants needed)
              (λ s w'' h. omega arith) (λ n s w'' h. round-advances needed n s.0 s.1 w'' h)
              (λ n s w'' h. h) rounds needed (node, 0) w' enough (omega arith))))
