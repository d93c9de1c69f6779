-- ===== src/PowerOps/Power.antt =====
-- Power requests to Ironic, and the wait for a stable power state.
pub mod Stable
pub mod Settles
pub mod Requests
use irnmn.Prelude.{
  ℕ, ◌+◌, String, Bool, false, not, ◌&&◌, ◌||◌, ◌==◌, [], ◌∷◌, any, leb, ltb, ◌&◌, if◌then◌else◌,
}
use irnmn.Attr.{Attr, null, text, get_attr, is_text, truthy}
use irnmn.Effect.{
  Exec, Result, ok, err, pure, raise, lift, raise_if, power_timeout, unsupported_power_target,
  value_error, ◌>>=◌, ◌>>◌,
}
use irnmn.Effect.Polling.{Round, done, again, poll}
use irnmn.PowerOps.Cloud.{Node, Cloud}
use irnmn.PowerOps.Duration.{ℤ, attempts}
use irnmn.PowerOps.Observe.{watch_round}
use irnmn.PowerOps.Lookup.{ironic_node}

pub record PowerReply : Type 0 where
  pub host : String
  pub power_state : Attr
  pub target_power_state : Attr

unfoldable pub is_power_target : String → Bool
is_power_target target =
    any (λ known. target == known)
      ("power on" ∷ "power off" ∷ "rebooting" ∷ "soft power off" ∷ "soft rebooting" ∷ [])

-- `effective_target` of `request_power`
unfoldable pub effective_target : String → Bool → String
effective_target target soft =
    if soft && target == "power off"
    then "soft power off"
    else if soft && target == "rebooting"
    then "soft rebooting"
    else target

-- `pending in compatible_pending` of `wait_power`
unfoldable pub is_compatible : String → Attr → Bool
is_compatible target pending =
    is_text pending target
    || (if target == "power off"
        then is_text pending "soft power off"
        else if target == "rebooting"
        then is_text pending "soft rebooting"
        else false)

-- What a snapshot of the node means to `wait_power`, with `stable` observations before it.
unfoldable pub judge : String → String → ℕ → Node → ℕ → Result (Round ℕ PowerReply)
unfolding is_compatible
judge host target needed node stable =
    let current = get_attr node.power_state null in
    let pending = get_attr node.target_power_state null in
    let stable' = if is_text current target then stable + 1 else 0 in
    if truthy node.last_error
    then err (power_timeout "BMC reported an error")
    else if truthy pending && not (is_compatible target pending) && not (is_text current target)
    then err (power_timeout "Ironic Node has a conflicting power target")
    else if leb needed stable'
    then ok (done (record { host = host; power_state = current; target_power_state = pending }))
    else ok (again stable')

module _ {W : Type 0} (cloud : Cloud W) where
  open cloud use {get_node, set_node_power_state, sleep}

  -- `request_power` once the node is known.
  unfoldable pub request_for : String → String → Bool → Node → Exec W PowerReply
  unfolding effective_target
  request_for host target soft node =
      let current = get_attr node.power_state null in
      let pending = get_attr node.target_power_state null in
      let effective = effective_target target soft in
      if is_text current target || is_text pending effective
      then pure (record { host = host; power_state = current; target_power_state = pending })
      else if truthy pending && not (is_text pending effective)
      then raise (power_timeout "Ironic Node has a conflicting power target")
      else do
        set_node_power_state node effective
        pure (record { host = host; power_state = current; target_power_state = text effective })

  unfoldable pub request_power : String → String → Bool → Exec W PowerReply
  unfolding is_power_target request_for
  request_power host target soft = do
    raise_if (not (is_power_target target))
        (unsupported_power_target ("unsupported power target: " & target))
    node ← ironic_node cloud host
    request_for host target soft node

  unfoldable pub power_round : String → String → ℕ → Node × ℕ → Exec W (Round (Node × ℕ) PowerReply)
  unfolding watch_round
  power_round host target needed = watch_round cloud (judge host target needed)

  unfoldable pub wait_power : String → String → ℤ → ℤ → ℕ → Exec W PowerReply
  unfolding power_round
  wait_power host target timeout interval stable_observations = do
    raise_if (ltb stable_observations 2) (value_error "stable_observations must be at least 2")
    node ← ironic_node cloud host
    rounds ← lift (attempts timeout interval)
    poll (sleep interval) (power_round host target stable_observations)
        (power_timeout "power state was not stable before timeout") rounds (node, 0)
