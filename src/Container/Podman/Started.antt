-- ===== src/Container/Podman/Started.antt =====
-- What holds of the container after PodmanWorker's `start_container`.
use mathlib.Core.Path.{subst}
use irnmn.Prelude.{
  ◌≡◌, refl, Bool, true, false, not, ◌==◌, eq_iff, Bool-cases, inl, inr, ◌⊎◌, Option, none, some,
  if◌then◌else◌,
}
use irnmn.Effect.{ok, Exec, pure, raise, run_if, module_failed, external, ◌>>=◌, ◌>>◌}
use irnmn.Effect.Post.{Returns, Returns-follow, Returns-bind, Returns-self, Returns-map}
use irnmn.Container.Params.{Params}
use irnmn.Container.Systemd.{SystemdHost, ContainerUnit}
use irnmn.Container.Systemd
use irnmn.Container.Systemd.Waits.{SeenIn, start-Returns}
use irnmn.Container.Engine.{Run, call}
use irnmn.Container.Docker.Images.{is_found}
use irnmn.Container.Docker.Create.{is_oneshot}
use irnmn.Container.Podman.Engine.{Container, Podman}
use irnmn.Container.Podman.Images.{check_container, ensure_image}
use irnmn.Container.Podman.Differs.{check_container_differs}
use irnmn.Container.Podman.Found.{IsReported, ReportedIfFound, check_container-Returns}
use irnmn.Container.Podman.{
  create_container, stop_container, remove_container, wait_for_exit, start_engine, start_unless_up,
  remove_if_differs, create_if_missing, start_container, fail_with_container,
}

-- The report is the last call that led to the world, or only the comparison came after it and found
-- no difference.
abbrev pub IsCurrent : {W : Type 0} → Podman W → Params → W → Option Container → Type 0
IsCurrent {W} podman params w' found =
    ReportedIfFound podman params w' found
    ⊎ ((r r' : Run W) × ReportedIfFound podman params r.world found
        × (check_container_differs podman params r ≡ (ok false, r'))
        × (r'.world ≡ w'))

abbrev pub RunningAs : {W : Type 0} → Podman W → Params → W → Type 0
RunningAs podman params w' =
    (container : Container) × (IsCurrent podman params w' (some container))
    × (container.status ≡ "running")

-- The engine has started the container that it had just reported, by the last call.
abbrev pub EngineStarted : {W : Type 0} → Podman W → Params → W → Type 0
EngineStarted {W} podman params w' =
    (container : Container) × (w : W) × IsReported podman params w container
    × (podman.start container.id w ≡ (ok tt, w'))

-- The last report of the container is that it is running, or the engine has just started it, or systemd has and its
-- unit was just seen running.
abbrev pub IsStarted : {W : Type 0} → Podman W → Params → SystemdHost W → ContainerUnit → W → Type 0
IsStarted podman params host u w =
    RunningAs podman params w ⊎ (EngineStarted podman params w ⊎ SeenIn host u "running" w)

module _ {W : Type 0} (podman : Podman W) (params : Params) (host : SystemdHost W)
    (u : ContainerUnit) where
  -- What the lookups promise.
  abbrev Currents : Option Container → Run W → Type 0
  Currents found r = IsCurrent podman params r.world found

  abbrev Starts : Unit {0} → Run W → Type 0
  Starts _ r = IsStarted podman params host u r.world

  look_up : (r : Run W) → Returns Currents (check_container podman params r)
  look_up r =
      Returns-map _ _ (check_container podman params r) (λ _ _ reported. inl reported)
        (check_container-Returns podman params r)

  remove_if_differs-Returns :
      (found : Option Container) (r : Run W)
      → ReportedIfFound podman params r.world found
      → Returns Currents (remove_if_differs podman params host u found r)
  remove_if_differs-Returns none r reported = inl tt
  remove_if_differs-Returns (some container) r reported =
      Returns-bind _ _ (check_container_differs podman params) r go
    where
      go :
          (differs : Bool) (r' : Run W)
          → check_container_differs podman params r ≡ (ok differs, r')
          → Returns Currents (
              (if differs
                  then (do
                    stop_container podman params host u
                    remove_container podman params host u
                    check_container podman params)
                  else pure (some container))
                r')
      go false r' called = inr (r, r', reported, called, refl)
      go true r' called = Returns-bind _ _ (stop_container podman params host u) r' (λ _ r' _.
          Returns-bind _ _ (remove_container podman params host u) r' (λ _ r' _. look_up r'))

  create_if_missing-Returns :
      (found : Option Container) (r : Run W)
      → IsCurrent podman params r.world found
      → Returns Currents (create_if_missing podman params host u found r)
  create_if_missing-Returns (some container) r current = current
  create_if_missing-Returns none r current =
      Returns-bind _ _ (create_container podman params host u) r (λ _ r' _. look_up r')

  fail_with_container-Returns :
      (Q : Unit {0} → Run W → Type 0) (r : Run W)
      → Returns Q (fail_with_container podman params host u r)
  fail_with_container-Returns Q r =
      Returns-bind _ _ (check_container podman params) r (λ found r' _. go found r')
    where
      go :
          (found : Option Container) (r : Run W)
          → Returns Q (
              (if is_found found
                  then raise (module_failed "Container timed out")
                  else raise (external "'NoneType' object has no attribute 'attrs'"))
                r)
      go none r = tt
      go (some container) r = tt

  -- After systemd was asked to start the unit.
  abbrev then_check : Bool → Exec (Run W) (Unit {0})
  then_check started = if started then pure tt else fail_with_container podman params host u

  then_check-Returns :
      (started : Bool) (r : Run W)
      → (started ≡ true → SeenIn host u "running" r.world)
      → Returns Starts (then_check started r)
  then_check-Returns true r seen = inr (inr (seen refl))
  then_check-Returns false r seen = fail_with_container-Returns Starts r

  call_start-Returns : (r : Run W) → Returns Starts ((call (Systemd.start host u) >>= then_check) r)
  call_start-Returns r = Returns-bind _ _ (call (Systemd.start host u)) r (λ started r' called.
      then_check-Returns started r' (λ is.
        ((subst (Returns _) (λ i. ((called i).0, (called i).1.world))
            (start-Returns host u r.world))
          is).1))

  start_engine-Returns :
      (found : Option Container) (r : Run W)
      → ReportedIfFound podman params r.world found
      → Returns Starts (start_engine podman params host u found r)
  start_engine-Returns none r reported = tt
  start_engine-Returns (some container) r reported =
      Returns-self _ (call (podman.start container.id) r) (λ _ r' called.
        inr (inl (container, r.world, reported, (λ i. ((called i).0, (called i).1.world)))))

  start_unless_up-Returns :
      (found : Option Container) (r : Run W)
      → IsCurrent podman params r.world found
      → Returns Starts (start_unless_up podman params host u found r)
  start_unless_up-Returns none r reported = tt
  start_unless_up-Returns (some container) r reported =
      elim (Bool-cases (container.status == "running")) [
        | inl up ↦ rw up (inl (container, reported, (eq_iff container.status "running").0 up))
        | inr down ↦ elim (Bool-cases (is_oneshot params)) [
          | inl oneshot ↦
              rw (down, oneshot)
                (Returns-follow _ _ (check_container podman params _)
                  (check_container-Returns podman params _)
                  (λ found r' there. start_engine-Returns found r' there))
          | inr lasting ↦
              rw (down, lasting)
                (Returns-bind _ _ (call (Systemd.create_unit_file host u)) _
                  (λ _ r' _. call_start-Returns r'))
        ]
      ]

-- A `start_container` of a detached container that returns leaves it started: the last report is
-- that it is running, and after it the run has only compared it, without finding a difference; or
-- the last call was the engine's start of the container just reported; or systemd was asked to start
-- it and its unit was just seen running.
pub podman_start-IsStarted :
    {W : Type 0} (podman : Podman W) (params : Params) (host : SystemdHost W) (u : ContainerUnit)
    (r : Run W)
    → params.detach ≡ true
    → Returns
        (λ _ r'. IsStarted podman params host u r'.world)
        (start_container podman params host u r)
unfolding start_container
podman_start-IsStarted {W = W} podman params host u r detached =
    Returns-bind _ _ (ensure_image podman params) r (λ _ r' _.
      Returns-follow _ _ (check_container podman params r')
        (check_container-Returns podman params r')
        (λ found r' there.
          Returns-follow _ _ (remove_if_differs podman params host u found r')
            (remove_if_differs-Returns podman params host u found r' there)
            (λ found r' there.
              Returns-follow _ _ (create_if_missing podman params host u found r')
                (create_if_missing-Returns podman params host u found r' there)
                (λ found r' there.
                  Returns-follow _ _ (start_unless_up podman params host u found r')
                    (start_unless_up-Returns podman params host u found r' there)
                    (λ _ r' started. waited r' started)))))
  where
    waited :
        (r : Run W)
        → IsStarted podman params host u r.world
        → Returns
            (λ _ r'. IsStarted podman params host u r'.world)
            (run_if (not params.detach) (wait_for_exit podman params host u) r)
    waited r started = rw detached started
