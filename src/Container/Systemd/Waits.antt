-- ===== src/Container/Systemd/Waits.antt =====
-- The loop that waits for a unit ends, and what it has seen when it succeeds.
use irnmn.Prelude.{
  ℕ, zero, suc, ◌+◌, ◌*◌, ◌/◌, ◌<◌, ◌≡◌, String, Bool, true, false, ltb, arith, List, Option, none,
  some, Bool-cases, inl, inr,
}
use irnmn.Effect.{Result, ok, err}
use irnmn.Effect.Post.{Returns, Returns-follow, Returns-bind, Returns-map}
use irnmn.Container.Systemd.{
  UnitEntry, start_unit, SystemdHost, ContainerUnit, is_state, state_of, get_unit_state, wait_loop,
  wait_for_unit, loop_answer, perform_action, no_exception, then_wait, start,
}

-- The unit was listed in the state, by the last call.
abbrev pub SeenIn : {W : Type 0} → SystemdHost W → ContainerUnit → String → W → Type 0
SeenIn {W} host u state w' =
    (w : W) × ((units : List UnitEntry) × (host.list_units w ≡ (ok units, w'))
      × (is_state state (state_of u.service_name units) ≡ true))

-- The loop has answered, and its answer is true only of a unit that was seen in the state.
abbrev pub Answers : {W : Type 0} → (W → Type 0) → Option Bool → W → Type 0
Answers Q none w = ⊥
Answers Q (some true) w = Q w
Answers Q (some false) w = Unit

module _ {W : Type 0} (host : SystemdHost W) (u : ContainerUnit) (state : String) where
  state-seen :
      (w : W)
      → Returns
          (λ found w'. is_state state found ≡ true → SeenIn host u state w')
          (get_unit_state host u w)
  unfolding get_unit_state
  state-seen w = Returns-bind _ _ host.list_units w (λ units w' listed is. (w, (units, listed, is)))

  -- A round answers, or leaves the rest to the loop when it is not too late.
  round-Answers :
      (fuel timeout elapsed : ℕ) (w : W)
      → ((w : W)
          → ltb timeout elapsed ≡ false
          → Returns
              (Answers (SeenIn host u state))
              (wait_loop host u fuel timeout state (elapsed + 5) w))
      → Returns
          (Answers (SeenIn host u state))
          (wait_loop host u (suc fuel) timeout state elapsed w)
  unfolding wait_loop
  round-Answers fuel timeout elapsed w later =
      Returns-follow _ _ (get_unit_state host u w) (state-seen w) (λ found w' seen.
        elim (Bool-cases (is_state state found)) [
          | inl is ↦ rw is (seen is)
          | inr other ↦ elim (Bool-cases (ltb timeout elapsed)) [
            | inl late ↦ rw (other, late) tt
            | inr early ↦ rw (other, early) (later (host.sleep 5 w') early)
          ]
        ])

  wait_loop-Answers :
      (fuel timeout elapsed : ℕ) (w : W)
      → timeout < elapsed + 5 * fuel
      → Returns
          (Answers (SeenIn host u state))
          (wait_loop host u (suc fuel) timeout state elapsed w)
  wait_loop-Answers zero timeout elapsed w enough =
      round-Answers zero timeout elapsed w (λ w early. absurd (ground (arith, early, enough)))
  wait_loop-Answers (suc fuel) timeout elapsed w enough =
      round-Answers (suc fuel) timeout elapsed w
        (λ w early. wait_loop-Answers fuel timeout (elapsed + 5) w (omega (arith, enough)))

-- Waiting for a unit ends: the loop never runs out of the fuel that `wait_for_unit` gives it, and
-- its answer is true only of a unit that the last listing shows in the state.
pub wait_loop-ends :
    {W : Type 0} (host : SystemdHost W) (u : ContainerUnit) (timeout : ℕ) (state : String) (w : W)
    → Returns (Answers (SeenIn host u state)) (wait_loop host u (timeout / 5 + 2) timeout state 0 w)
wait_loop-ends host u timeout state w =
    let fuel : timeout / 5 + 2 ≡ suc (timeout / 5 + 1) = omega arith in
    rw fuel (wait_loop-Answers host u state (timeout / 5 + 1) timeout 0 w (omega arith))

pub wait_for_unit-Returns :
    {W : Type 0} (host : SystemdHost W) (u : ContainerUnit) (timeout : ℕ) (state : String) (w : W)
    → Returns
        (λ answer w'. answer ≡ true → SeenIn host u state w')
        (wait_for_unit host u timeout state w)
unfolding wait_for_unit
wait_for_unit-Returns {W = W} host u timeout state w =
    Returns-follow _ _ _ (wait_loop-ends host u timeout state w) answered
  where
    answered :
        (answer : Option Bool) (w' : W)
        → Answers (SeenIn host u state) answer w'
        → loop_answer host u answer ≡ true
        → SeenIn host u state w'
    answered none w' seen is = absurd seen
    answered (some true) w' seen is = seen
    answered (some false) w' seen is = absurd (ground (arith, is))

performed :
    {W : Type 0} (x : Result (Unit {0}) × W) (w : W)
    → no_exception x ≡ (ok true, w)
    → x ≡ (ok tt, w)
performed (ok _, v) w h = λ i. (ok tt, (h i).1)
performed (err e, v) w h = absurd (cc)

-- A start that succeeds has asked the manager to start the unit, and has then seen it running.
pub start-Returns :
    {W : Type 0} (host : SystemdHost W) (u : ContainerUnit) (w : W)
    → Returns
        (λ answer w'.
          answer ≡ true
          → ((asked : W) × (host.call_manager (start_unit u.service_name "replace") w
                ≡ (ok tt, asked)))
            × SeenIn host u "running" w')
        (start host u w)
unfolding start perform_action
start-Returns {W = W} host u w =
    Returns-bind _ _ (perform_action host u (start_unit u.service_name "replace")) w waited
  where
    waited :
        (done : Bool) (v : W)
        → no_exception (host.call_manager (start_unit u.service_name "replace") w) ≡ (ok done, v)
        → Returns
            (λ answer w'.
              answer ≡ true
              → ((asked : W) × (host.call_manager (start_unit u.service_name "replace") w
                    ≡ (ok tt, asked)))
                × SeenIn host u "running" w')
            (then_wait host u "running" done v)
    waited true v called =
        Returns-map _ _ (wait_for_unit host u u.restart_timeout "running" v)
          (λ answer w' seen is. ((v, performed _ v called), seen is))
          (wait_for_unit-Returns host u u.restart_timeout "running" v)
    waited false v called = λ is. absurd (ground (arith, is))
