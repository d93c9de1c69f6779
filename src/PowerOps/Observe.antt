-- ===== src/PowerOps/Observe.antt =====
-- Reads of a node one after another, as the loops of `wait_power` and of the fencing task make them,
-- and the streaks of reads that report a state.
use irnmn.Prelude.{ℕ, suc, ◌+◌, ◌≤◌, ◌<◌, String, ◌≡◌, refl, sym, ◌⊎◌, inl, inr, true, false, arith}
use mathlib.Core.Path.{subst}
use irnmn.Attr.{is_text, truthy}
use irnmn.Effect.{Exception, Result, ok, err, Exec, continue, pure, lift, ◌>>=◌}
use irnmn.Effect.Post.{Returns}
use irnmn.Effect.Polling.{Round, done, again, poll, RoundKeeps, poll-Returns}
use irnmn.PowerOps.Cloud.{Node, Cloud}
use irnmn.PowerOps.Duration.{ℤ}

-- The loop's variables are the node last read and the count of stable observations.
abbrev pub with_node : {R : Type 0} → Node → Round ℕ R → Round (Node × ℕ) R
with_node node (done reply) = done reply
with_node node (again stable) = again (node, stable)

-- `node = connection.baremetal.get_node(node)`, and the verdict on what was read.
unfoldable pub watch_round :
    {W R : Type 0}
    → Cloud W
    → (Node → ℕ → Result (Round ℕ R))
    → Node × ℕ
    → Exec W (Round (Node × ℕ) R)
watch_round cloud verdict (node, stable) = do
  snapshot ← cloud.get_node node
  decided ← lift (verdict snapshot stable)
  pure (with_node snapshot decided)

-- The node reports the state, and no error of its BMC.
abbrev pub Reports : String → Node → Type 0
Reports target node = (is_text node.power_state target ≡ true) × (truthy node.last_error ≡ false)

-- The last `k` reads of the node, which chain from read to read, all reported the state; `n` is the
-- node as last read, and `w` the world after the last read and the sleep that followed it, if any.
pub data Streak {W : Type 0} (cloud : Cloud W) (target : String) : Node → ℕ → W → Type 0 where
  start : {n : Node} {w : W} → Streak cloud target n 0 w
  observed :
      {n n' : Node} {k : ℕ} {w w' : W}
      → Streak cloud target n k w
      → cloud.get_node n w ≡ (ok n', w')
      → Reports target n'
      → Streak cloud target n' (suc k) w'
  slept :
      {n : Node} {k : ℕ} {w : W} (interval : ℤ)
      → Streak cloud target n k w
      → Streak cloud target n k (cloud.sleep interval w)

module _ {W R : Type 0} (cloud : Cloud W) (target : String) (needed : ℕ)
    (verdict : Node → ℕ → Result (Round ℕ R)) (Shows : Node → R → Type 0) where
  -- A verdict returns on the last observation that is wanted, and counts one more or starts anew.
  pub record IsCounting : Type 0 where
    pub on_done :
        (n : Node) (stable : ℕ) (reply : R)
        → verdict n stable ≡ ok (done reply)
        → Reports target n × (needed ≤ stable + 1) × Shows n reply
    pub on_again :
        (n : Node) (stable k : ℕ)
        → verdict n stable ≡ ok (again k)
        → (k < needed) × ((k ≡ 0) ⊎ (Reports target n × (k ≡ stable + 1)))

  -- The invariant of the loop: the count is the length of the streak, and still too low.
  abbrev pub Counts : Node × ℕ → W → Type 0
  Counts (n, stable) w = Streak cloud target n stable w × (stable < needed)

  -- The node was read as often as wanted, in a row, in the state, and the reply shows it.
  abbrev pub Confirmed : R → W → Type 0
  Confirmed reply w = (n : Node) × Streak cloud target n needed w × Shows n reply

  module _ (counting : IsCounting) where
    verdict-keeps :
        (n n' : Node) (stable : ℕ) (w w' : W)
        → Counts (n, stable) w
        → cloud.get_node n w ≡ (ok n', w')
        → (v : Result (Round ℕ R)) → verdict n' stable ≡ v
        → RoundKeeps Counts Confirmed ((lift v >>= λ x. pure (with_node n' x)) w')
    verdict-keeps n n' stable w w' (streak, low) read (err x) e = tt
    verdict-keeps n n' stable w w' (streak, low) read (ok (done reply)) e =
        let (reports, full, shown) = counting.on_done n' stable reply e in
        (
          n',
          subst (λ k. Streak cloud target n' k w') (omega arith) (observed streak read reports),
          shown,
        )
    verdict-keeps n n' stable w w' (streak, low) read (ok (again k)) e =
        let (low', why) = counting.on_again n' stable k e in
        elim why [
          | inl reset ↦ (subst (λ m. Streak cloud target n' m w') (sym reset) start, low')
          | inr (reports, more) ↦ (
            subst (λ m. Streak cloud target n' m w') (omega arith) (observed streak read reports),
            low',
          )
        ]

    round-keeps :
        (n : Node) (stable : ℕ) (w w' : W)
        → Counts (n, stable) w
        → (r : Result Node) → cloud.get_node n w ≡ (r, w')
        → RoundKeeps Counts Confirmed
            (continue r (λ n'. lift (verdict n' stable) >>= λ x. pure (with_node n' x)) w')
    round-keeps n stable w w' h (err x) read = tt
    round-keeps n stable w w' h (ok n') read =
        verdict-keeps n n' stable w w' h read (verdict n' stable) refl

    pub watch-Returns :
        (interval : ℤ) (late : Exception) (rounds : ℕ) (node : Node) (w : W)
        → 0 < needed
        → Returns Confirmed
            (poll (cloud.sleep interval) (watch_round cloud verdict) late rounds (node, 0) w)
    unfolding watch_round
    watch-Returns interval late rounds node w wanted =
        poll-Returns (cloud.sleep interval) (watch_round cloud verdict) late Counts Confirmed
          (λ s w h. let (r, w') = cloud.get_node s.0 w in round-keeps s.0 s.1 w w' h r refl)
          (λ s w h. (slept interval h.0, h.1)) rounds (node, 0) w (start, wanted)
