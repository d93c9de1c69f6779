-- ===== src/PowerOps/HostReturn/Verified.antt =====
-- `verify_host_return` of operations.py declares a host ready only on all of its evidence.
use irnmn.Prelude.{
  String, ◌≡◌, refl, sym, ap, ◌∙◌, Bool, true, not, List, [], ◌∷◌, select, All, arith,
}
use irnmn.Attr.{null, get_attr, is_text, is_set}
use irnmn.Effect.{ok}
use irnmn.Effect.Post.{Returns, Returns-bind, Returns-raise_if, Returns-map}
use irnmn.PowerOps.Cloud.{Node, Service, Agent, Cloud}
use irnmn.PowerOps.Lookup.{ironic_node, nova_service}
use irnmn.PowerOps.HostReturn.{agent_is_healthy, one_alive, check_agents, verify_host_return}

-- The listing has exactly one agent with the binary, and this one is alive.
abbrev pub OneAlive : List Agent → String → Type 0
OneAlive found binary =
    (agent : Agent) × (select (λ item. is_text item.binary binary) found ≡ agent ∷ [])
    × (is_set agent.is_alive ≡ true)

-- The calls that a successful verification made, one after another from `w` to `w'`.
pub record IsVerified {W : Type 0} (cloud : Cloud W) (required : List String) (host : String)
    (w w' : W) : Type 0 where
  pub known : Node
  pub node : Node
  pub service : Service
  pub found : List Agent
  pub w₁ : W
  pub w₂ : W
  pub w₃ : W
  pub located : ironic_node cloud host w ≡ (ok known, w₁)
  pub read : cloud.get_node known w₁ ≡ (ok node, w₂)
  pub powered : is_text node.power_state "power on" ≡ true
  pub served : nova_service cloud host w₂ ≡ (ok service, w₃)
  pub is_up : is_text service.state "up" ≡ true
  pub listed : cloud.agents host w₃ ≡ (ok found, w')
  pub healthy : All (OneAlive found) required

one_alive_lem :
    (l : List Agent)
    → one_alive l ≡ true
    → (agent : Agent) × (l ≡ agent ∷ []) × (is_set agent.is_alive ≡ true)
one_alive_lem [] h = cc
one_alive_lem (a ∷ []) h = (a, refl, h)
one_alive_lem (a ∷ b ∷ l) h = cc

agent_is_healthy_lem :
    (found : List Agent) (binary : String)
    → agent_is_healthy found binary ≡ true
    → OneAlive found binary
unfolding agent_is_healthy
agent_is_healthy_lem found binary h =
    one_alive_lem (select (λ item. is_text item.binary binary) found) h

check_agents-Returns :
    {W : Type 0} (found : List Agent) (required : List String) (w : W)
    → Returns (λ _ w'. (w' ≡ w) × All (OneAlive found) required) (check_agents found required w)
unfolding check_agents
check_agents-Returns found [] w = (refl, tt)
check_agents-Returns found (binary ∷ rest) w =
    Returns-raise_if _ _ (not (agent_is_healthy found binary)) _ w λ healthy.
      Returns-map (λ _ w'. (w' ≡ w) × All (OneAlive found) rest) _ (check_agents found rest w)
        (λ _ w' h. (h.0, (agent_is_healthy_lem found binary (ground arith), h.1)))
        (check_agents-Returns found rest w)

-- When `verify_host_return` returns, the stale domain check was made, and its calls found one node
-- for the host that is powered on, one Nova service that is up, and for every required network
-- agent exactly one agent, which is alive; the reply says that the host is ready.
pub verify_host_return-Returns :
    {W : Type 0} (cloud : Cloud W) (required : List String) (host : String) (checked : Bool) (w : W)
    → Returns
        (λ reply w'. (checked ≡ true) × (reply.ready ≡ true) × IsVerified cloud required host w w')
        (verify_host_return cloud required host checked w)
unfolding verify_host_return
verify_host_return-Returns cloud required host checked w =
    Returns-raise_if _ _ (not checked) _ w λ was_checked.
      Returns-bind _ _ (ironic_node cloud host) w λ known w₁ located.
        Returns-bind _ _ (cloud.get_node known) w₁ λ node w₂ read.
          Returns-raise_if _ _ (not (is_text (get_attr node.power_state null) "power on")) _ w₂
            λ on. Returns-bind _ _ (nova_service cloud host) w₂ λ service w₃ served.
              Returns-raise_if _ _ (not (is_text (get_attr service.state null) "up")) _ w₃ λ is_up.
                Returns-bind _ _ (cloud.agents host) w₃ λ found w₄ listed.
                  Returns-bind _ _ (check_agents found required) w₄ λ _ w₅ done.
                    let h = (rw done at (check_agents-Returns found required w₄)) in
                    (
                      ground arith,
                      refl,
                      record {
                        known = known;
                        node = node;
                        service = service;
                        found = found;
                        w₁ = w₁;
                        w₂ = w₂;
                        w₃ = w₃;
                        located = located;
                        read = read;
                        powered = ground arith;
                        served = served;
                        is_up = ground arith;
                        listed = listed ∙ ap (λ x. (ok found, x)) (sym h.0);
                        healthy = h.1;
                      },
                    )
