-- ===== src/Actions/Tests.antt =====
-- Runs of the Mistral actions on the fake cloud.
use irnmn.Prelude.{◌≡◌, refl, false, none, some}
use irnmn.Attr.{missing, null, text}
use irnmn.Effect.{ok}
use irnmn.PowerOps.Duration.{pos}
use irnmn.PowerOps.Fake.{World, fake, calm}
use irnmn.Lock.RedisServer.{Redis}
use irnmn.Lock.{make_lock, acquire}
use irnmn.Actions.{Conf, Context, acquire_host_lock, failed, run_action}
use irnmn.Actions.Raises.{RaisesUnexpected, run_action_unexpected}

abbrev defaults : Conf
defaults = record {
  lock_ttl = pos 900;
  drain_timeout = pos 600;
  power_timeout = pos 180;
  poll_interval = pos 5;
  stable_observations = 3;
}

-- A Redis that always answers that a key is taken.
abbrev busy : Redis World
busy = record {
  get = λ k w. some "other";
  set_nx_px = λ k v ttl w. (false, w);
  pexpire = λ k ttl w. (0, w);
  del = λ k w. (0, w);
  expire = λ k w. w;
}

abbrev by_workflow : Context
by_workflow = record { workflow_execution_id = null; execution_id = text "e1" }

abbrev nobody : Context
nobody = record { workflow_execution_id = missing; execution_id = missing }

lock_taken :
    run_action fake busy defaults
      (λ w. ("id", w))
      by_workflow
      (acquire_host_lock "compute-01" none)
      calm
    ≡ (ok (failed "host operation lock is already held: compute-01"), calm)
unfolding run_action make_lock acquire
lock_taken = refl

run_action_unexpected_example : RaisesUnexpected (
    run_action fake busy defaults
      (λ w. ("id", w))
      nobody
      (acquire_host_lock "compute-01" none)
      calm)
run_action_unexpected_example =
    run_action_unexpected fake busy defaults (λ w. ("id", w)) nobody
      (acquire_host_lock "compute-01" none) calm
