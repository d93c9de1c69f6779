-- ===== src/Fence/Confirmed.antt =====
-- A fencing that succeeds has physical evidence: consecutive reads of a node that is off.
use irnmn.Prelude.{ℕ, ◌+◌, ◌≤◌, ◌<◌, String, ◌≡◌, ◌⊎◌, arith}
use irnmn.Effect.{ok, lift}
use irnmn.Effect.Post.{Returns, Returns-bind}
use irnmn.Effect.Polling.{done, again}
use irnmn.PowerOps.Cloud.{Node, Cloud}
use irnmn.PowerOps.Duration.{pos}
use irnmn.PowerOps.Observe.{Reports, Streak, IsCounting, watch-Returns}
use irnmn.Fence.{
  Options, FenceReply, fence_attempts, fence_verdict, exact_node, request_off, execute,
}

abbrev pub ShowsNode : ℕ → Node → FenceReply → Type 0
ShowsNode needed n reply =
    (reply.node_uuid ≡ n.id)
    × (reply.power_state ≡ "power off")
    × (needed ≤ reply.stable_observations)

module _ (host : String) (needed : ℕ) (n : Node) (stable : ℕ) where
  verdict-done :
      (reply : FenceReply)
      → 0 < needed
      → fence_verdict host needed n stable ≡ ok (done reply)
      → Reports "power off" n × (needed ≤ stable + 1) × ShowsNode needed n reply
  unfolding fence_verdict
  verdict-done reply wanted h = ground arith

  verdict-again :
      (k : ℕ)
      → fence_verdict host needed n stable ≡ ok (again k)
      → (k < needed) × ((k ≡ 0) ⊎ (Reports "power off" n × (k ≡ stable + 1)))
  unfolding fence_verdict
  verdict-again k h = ground arith

verdict-IsCounting :
    {W : Type 0} (cloud : Cloud W) (host : String) (needed : ℕ)
    → 0 < needed
    → IsCounting cloud "power off" needed (fence_verdict host needed) (ShowsNode needed)
verdict-IsCounting cloud host needed wanted = record {
  on_done = λ n stable reply e. verdict-done host needed n stable reply wanted e;
  on_again = λ n stable k e. verdict-again host needed n stable k e;
}

-- With at least one stable observation asked for, a fencing that returns has read one node as often
-- as the options ask, in a row, each time powered off and with no BMC error; the reply names this
-- node and says that it is off.
pub execute-Returns :
    {W : Type 0} (cloud : Cloud W) (options : Options) (host : String) (w : W)
    → 0 < options.stable_off_observations
    → Returns
        (λ reply w'.
          (n : Node) × Streak cloud "power off" n options.stable_off_observations w'
          × ShowsNode options.stable_off_observations n reply)
        (execute cloud options host w)
unfolding execute
execute-Returns cloud options host w wanted =
    Returns-bind _ _ (exact_node cloud options host) w λ node w₁ _.
      Returns-bind _ _ (request_off cloud options node) w₁ λ _ w₂ _.
        Returns-bind _ _ (lift (fence_attempts options)) w₂ λ rounds w₃ _.
          watch-Returns cloud "power off" options.stable_off_observations
            (fence_verdict host options.stable_off_observations)
            (ShowsNode options.stable_off_observations)
            (verdict-IsCounting cloud host options.stable_off_observations wanted)
            (pos options.poll_interval) _ rounds node w₃ wanted
