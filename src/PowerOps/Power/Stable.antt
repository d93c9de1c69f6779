-- ===== src/PowerOps/Power/Stable.antt =====
-- `wait_power` of operations.py returns only on consecutive observations of the target state.
use irnmn.Prelude.{ℕ, ◌+◌, ◌≤◌, ◌<◌, String, ◌≡◌, ◌⊎◌, true, ltb, leb, if◌then◌else◌, arith}
use irnmn.Attr.{null, get_attr, is_text}
use irnmn.Effect.{ok, power_timeout, value_error}
use irnmn.Effect.Post.{Returns, Returns-continue, Returns-raise_if, Returns-map}
use irnmn.Effect.Polling.{done, again, poll}
use irnmn.PowerOps.Cloud.{Node, Cloud}
use irnmn.PowerOps.Duration.{ℤ, attempts}
use irnmn.PowerOps.Lookup.{ironic_node}
use irnmn.PowerOps.Observe.{Reports, Streak, IsCounting, Confirmed, watch-Returns}
use irnmn.PowerOps.Power.{PowerReply, judge, power_round, wait_power}

abbrev ShowsTarget : String → Node → PowerReply → Type 0
ShowsTarget target n reply = is_text reply.power_state target ≡ true

module _ (host target : String) (needed : ℕ) (n : Node) (stable : ℕ) where
  judge-done :
      (reply : PowerReply)
      → 0 < needed
      → judge host target needed n stable ≡ ok (done reply)
      → Reports target n × (needed ≤ stable + 1) × (is_text reply.power_state target ≡ true)
  unfolding judge
  judge-done reply pos_needed h = ground arith

  judge-again :
      (k : ℕ)
      → judge host target needed n stable ≡ ok (again k)
      → (k < needed) × ((k ≡ 0) ⊎ (Reports target n × (k ≡ stable + 1)))
  unfolding judge
  judge-again k h = ground arith

  -- On a snapshot that reports the state the verdict is to return or to count it.
  pub judge-Reports :
      Reports target n
      → judge host target needed n stable ≡ (
          if leb needed (stable + 1)
          then ok (
              done (record {
                host = host;
                power_state = get_attr n.power_state null;
                target_power_state = get_attr n.target_power_state null;
              }))
          else ok (again (stable + 1)))
  unfolding judge
  judge-Reports h = ground arith

judge-IsCounting :
    {W : Type 0} (cloud : Cloud W) (host target : String) (needed : ℕ)
    → 0 < needed
    → IsCounting cloud target needed (judge host target needed) (ShowsTarget target)
judge-IsCounting cloud host target needed wanted = record {
  on_done = λ n stable reply e. judge-done host target needed n stable reply wanted e;
  on_again = λ n stable k e. judge-again host target needed n stable k e;
}

-- When `wait_power` returns, at least two observations were asked for, the node was read that
-- many times in a row, each of these reads reported the target state and no BMC error, and the
-- reply carries the target state.
pub wait_power-Returns :
    {W : Type 0} (cloud : Cloud W) (host target : String) (timeout interval : ℤ) (needed : ℕ)
    (w : W)
    → Returns
        (λ reply w'.
          (2 ≤ needed)
          × (is_text reply.power_state target ≡ true)
          × ((n : Node) × Streak cloud target n needed w'))
        (wait_power cloud host target timeout interval needed w)
unfolding wait_power
wait_power-Returns cloud host target timeout interval needed w =
    Returns-raise_if _ _ (ltb needed 2) (value_error "stable_observations must be at least 2") w
      λ passed.
        let (r, w') = ironic_node cloud host w in
        Returns-continue _ _ r w' λ node _.
          Returns-continue _ _ (attempts timeout interval) w' λ rounds _.
            Returns-map
              (Confirmed cloud target needed (judge host target needed) (ShowsTarget target)) _
              (poll (cloud.sleep interval) (power_round cloud host target needed)
                (power_timeout "power state was not stable before timeout") rounds (node, 0) w')
              (λ reply w'' h. (ground arith, h.2, (h.0, h.1)))
              (watch-Returns cloud target needed (judge host target needed) (ShowsTarget target)
                (judge-IsCounting cloud host target needed (ground arith)) interval _ rounds node w'
                (ground arith))
