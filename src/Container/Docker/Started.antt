-- ===== src/Container/Docker/Started.antt =====
-- What holds of the container after `start_container`.
use text.Mathlib.Text.{starts_with}
use mathlib.Core.Path.{subst}
use irnmn.Prelude.{
  ◌≡◌, refl, Bool, true, false, not, Bool-cases, inl, inr, ◌⊎◌, List, ◌&◌, Option, none, some,
  if◌then◌else◌,
}
use irnmn.Effect.{ok, Exec, pure, raise, run_if, module_failed, external, ◌>>=◌, ◌>>◌}
use irnmn.Effect.Post.{
  Returns, Returns-follow, Returns-bind, Returns-self, Returns-map, Returns-run_if,
}
use irnmn.Container.Params.{Params, ContainerEntry}
use irnmn.Container.Systemd.{SystemdHost, ContainerUnit}
use irnmn.Container.Systemd
use irnmn.Container.Systemd.Waits.{SeenIn, start-Returns}
use irnmn.Container.Engine.{Docker, Run, call}
use irnmn.Container.Docker.Images.{
  container_named, is_found, check_image, check_container, pull_image,
}
use irnmn.Container.Docker.Differs.{check_container_differs}
use irnmn.Container.Docker.Create.{is_oneshot, create_container}
use irnmn.Container.Docker.{
  wait_for_exit, start_unless_up, remove_if_differs, create_if_missing, start_container,
  stop_container, remove_container, fail_with_container,
}

-- The engine has just listed the container, in a call that left the world.
abbrev pub IsListed : {W : Type 0} → Docker W → Params → W → Option ContainerEntry → Type 0
IsListed docker params w' none = Unit
IsListed {W} docker params w' (some container) =
    (w : W) × (containers : List ContainerEntry) × (docker.containers w ≡ (ok containers, w'))
    × (container_named ("/" & params.name) containers ≡ some container)

-- The listing is the last call that led to the world, or only the comparison came after it and found
-- no difference.
abbrev pub IsCurrent : {W : Type 0} → Docker W → Params → W → Option ContainerEntry → Type 0
IsCurrent {W} docker params w' found =
    IsListed docker params w' found
    ⊎ ((r r' : Run W) × IsListed docker params r.world found
        × (check_container_differs docker params r ≡ (ok false, r'))
        × (r'.world ≡ w'))

abbrev pub ListedUp : {W : Type 0} → Docker W → Params → W → Type 0
ListedUp docker params w' =
    (container : ContainerEntry) × (IsCurrent docker params w' (some container))
    × (starts_with container.status "Up " ≡ true)

-- The last listing has the container as one that is up, or the engine has just started it, or systemd has and
-- its unit was just seen running.
abbrev pub IsStarted : {W : Type 0} → Docker W → Params → SystemdHost W → ContainerUnit → W → Type 0
IsStarted {W} docker params host u w' =
    ListedUp docker params w'
    ⊎ (((w : W) × (docker.start params.name w ≡ (ok tt, w'))) ⊎ SeenIn host u "running" w')

module _ {W : Type 0} (docker : Docker W) (params : Params) (host : SystemdHost W)
    (u : ContainerUnit) where
  check_container-Returns :
      (r : Run W)
      → Returns
          (λ found r'. IsListed docker params r'.world found)
          (check_container docker params r)
  unfolding check_container
  check_container-Returns r = Returns-bind _ _ (call docker.containers) r (λ containers r' called.
      go containers r.world r'.world (λ i. ((called i).0, (called i).1.world))
        (container_named ("/" & params.name) containers) refl)
    where
      go :
          (containers : List ContainerEntry) (w w' : W)
          → docker.containers w ≡ (ok containers, w')
          → (found : Option ContainerEntry) → container_named ("/" & params.name) containers ≡ found
          → IsListed docker params w' found
      go containers w w' listed none e = tt
      go containers w w' listed (some container) e = (w, containers, listed, e)

  remove_if_differs-Returns :
      (found : Option ContainerEntry) (r : Run W)
      → IsListed docker params r.world found
      → Returns
          (λ found r'. IsCurrent docker params r'.world found)
          (remove_if_differs docker params host u found r)
  remove_if_differs-Returns none r listed = inl tt
  remove_if_differs-Returns (some container) r listed =
      Returns-bind _ _ (check_container_differs docker params) r go
    where
      go :
          (differs : Bool) (r' : Run W)
          → check_container_differs docker params r ≡ (ok differs, r')
          → Returns
              (λ found r'. IsCurrent docker params r'.world found)
              ((if differs
                  then (do
                    stop_container docker params host u
                    remove_container docker params host u
                    check_container docker params)
                  else pure (some container))
                r')
      go false r' called = inr (r, r', listed, called, refl)
      go true r' called = Returns-bind _ _ (stop_container docker params host u) r' (λ _ r' _.
          Returns-bind _ _ (remove_container docker params host u) r' (λ _ r' _.
            Returns-map _ _ (check_container docker params r') (λ _ _ listed. inl listed)
              (check_container-Returns r')))

  create_if_missing-Returns :
      (found : Option ContainerEntry) (r : Run W)
      → IsCurrent docker params r.world found
      → Returns
          (λ found r'. IsCurrent docker params r'.world found)
          (create_if_missing docker params host u found r)
  create_if_missing-Returns (some container) r current = current
  create_if_missing-Returns none r current =
      Returns-bind _ _ (create_container docker params host u) r (λ _ r' _.
        Returns-map _ _ (check_container docker params r') (λ _ _ listed. inl listed)
          (check_container-Returns r'))

  fail_with_container-Returns :
      (Q : Unit {0} → Run W → Type 0) (r : Run W)
      → Returns Q (fail_with_container docker params host u r)
  fail_with_container-Returns Q r =
      Returns-bind _ _ (check_container docker params) r (λ found r' _. go found r')
    where
      go :
          (found : Option ContainerEntry) (r : Run W)
          → Returns Q (
              (if is_found found
                  then raise (module_failed "Container timed out")
                  else raise (external "argument after ** must be a mapping, not NoneType"))
                r)
      go none r = tt
      go (some container) r = tt

  -- After systemd was asked to start the unit.
  abbrev then_check : Bool → Exec (Run W) (Unit {0})
  then_check started = if started then pure tt else fail_with_container docker params host u

  then_check-Returns :
      (started : Bool) (r : Run W)
      → (started ≡ true → SeenIn host u "running" r.world)
      → Returns (λ _ r'. IsStarted docker params host u r'.world) (then_check started r)
  then_check-Returns true r seen = inr (inr (seen refl))
  then_check-Returns false r seen =
      fail_with_container-Returns (λ _ r'. IsStarted docker params host u r'.world) r

  call_start-Returns :
      (r : Run W)
      → Returns
          (λ _ r'. IsStarted docker params host u r'.world)
          ((call (Systemd.start host u) >>= then_check) r)
  call_start-Returns r = Returns-bind _ _ (call (Systemd.start host u)) r (λ started r' called.
      then_check-Returns started r' (λ is.
        ((subst (Returns _) (λ i. ((called i).0, (called i).1.world))
            (start-Returns host u r.world))
          is).1))

  start_unless_up-Returns :
      (found : Option ContainerEntry) (r : Run W)
      → IsCurrent docker params r.world found
      → Returns
          (λ _ r'. IsStarted docker params host u r'.world)
          (start_unless_up docker params host u found r)
  start_unless_up-Returns none r listed = tt
  start_unless_up-Returns (some container) r listed =
      elim (Bool-cases (starts_with container.status "Up ")) [
        | inl up ↦ rw up (inl (container, listed, up))
        | inr down ↦ elim (Bool-cases (is_oneshot params)) [
          | inl oneshot ↦
              rw (down, oneshot)
                (Returns-self _ (call (docker.start params.name) _)
                  (λ _ r' called. inr (inl (r.world, λ i. ((called i).0, (called i).1.world)))))
          | inr lasting ↦
              rw (down, lasting)
                (Returns-bind _ _ (call (Systemd.create_unit_file host u)) _
                  (λ _ r' _. call_start-Returns r'))
        ]
      ]

-- A `start_container` of a detached container that returns leaves it started: the last listing has it
-- as up, and after it the run has only compared it, without finding a difference; or the last call
-- was the engine's start of it; or systemd was asked to start it and its unit was just seen running.
pub start_container-IsStarted :
    {W : Type 0} (docker : Docker W) (params : Params) (host : SystemdHost W) (u : ContainerUnit)
    (r : Run W)
    → params.detach ≡ true
    → Returns
        (λ _ r'. IsStarted docker params host u r'.world)
        (start_container docker params host u r)
unfolding start_container
start_container-IsStarted {W = W} docker params host u r detached =
    Returns-bind _ _ (check_image docker params) r (λ image r' _.
      Returns-run_if _ _ (not (is_found image)) (pull_image docker params) r' (λ _. checked r')
        (λ r' _ _. checked r'))
  where
    waited :
        (r : Run W)
        → IsStarted docker params host u r.world
        → Returns
            (λ _ r'. IsStarted docker params host u r'.world)
            (run_if (not params.detach) (wait_for_exit docker params host u) r)
    waited r started = rw detached started

    checked :
        (r : Run W)
        → Returns
            (λ _ r'. IsStarted docker params host u r'.world)
            ((check_container docker params >>= λ container.
                remove_if_differs docker params host u container >>= λ container.
                create_if_missing docker params host u container >>= λ container.
                start_unless_up docker params host u container >>= λ _.
                run_if (not params.detach) (wait_for_exit docker params host u))
              r)
    checked r =
        Returns-follow _ _ (check_container docker params r)
          (check_container-Returns docker params host u r)
          (λ found r' listed.
            Returns-follow _ _ (remove_if_differs docker params host u found r')
              (remove_if_differs-Returns docker params host u found r' listed)
              (λ found r' listed.
                Returns-follow _ _ (create_if_missing docker params host u found r')
                  (create_if_missing-Returns docker params host u found r' listed)
                  (λ found r' listed.
                    Returns-follow _ _ (start_unless_up docker params host u found r')
                      (start_unless_up-Returns docker params host u found r' listed)
                      (λ _ r' started. waited r' started))))
