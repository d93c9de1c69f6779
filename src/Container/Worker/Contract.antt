-- ===== src/Container/Worker/Contract.antt =====
-- What the module may rely on of a worker, and that both workers fulfil it.
use irnmn.Prelude.{Option, ◌≡◌, refl, Bool, true, false, not, arith, if◌then◌else◌}
use irnmn.Effect.{ok, Exec, pure, ◌>>=◌, ◌>>◌}
use irnmn.Effect.Post.{Returns, Returns-follow, Returns-bind, Returns-self, Returns-map}
use irnmn.Container.Params.{Params, ContainerInfo, ContainerEntry}
use irnmn.Container.Systemd.{SystemdHost, ContainerUnit, check_unit_change}
use irnmn.Container.Engine.{Docker, Run, call, set_changed, ◌or_else◌}
use irnmn.Container.Podman.Engine.{Container, Podman}
use irnmn.Container.Worker.{Worker, docker_worker, podman_worker}
use irnmn.Container.Docker.Images.{is_found}
use irnmn.Container.Docker.Images as DockerImages
use irnmn.Container.Docker.Differs as DockerDiffers
use irnmn.Container.Differs.NoOnlyIf.{NoOnlyIf, NoOnlyAt, call_then, pure_then, ◌then◌}
use irnmn.Container.Docker.Differs.Matches as DockerMatches
use irnmn.Container.Docker.Started as DockerStarted
use irnmn.Container.Podman.Images as PodmanImages
use irnmn.Container.Podman.Differs as PodmanDiffers
use irnmn.Container.Podman.Matches as PodmanMatches
use irnmn.Container.Podman.Started as PodmanStarted

-- `compare_container` answers no only where `Matched` holds of the state it starts in, and a `start_container` of a
-- detached container that returns leaves a state of which `Started` holds.
pub record Contract {W : Type 0} (params : Params) (worker : Worker W) (Matched : Run W → Type 0)
    (Started : W → Type 0) : Type 0 where
  pub compares : (r : Run W) → NoOnlyAt r (Matched r) worker.compare_container
  pub starts :
      params.detach ≡ true
      → (r : Run W) → Returns (λ _ r'. Started r'.world) (worker.start_container r)

-- The end of `compare_container`.
abbrev answer : {W : Type 0} → Bool → Exec (Run W) Bool
answer differs = if differs then (do set_changed; pure true) else λ r. (ok r.changed, r)

answer-NoOnlyAt :
    {W : Type 0} {r : Run W} {P : Type 0} {m : Exec (Run W) Bool} (differs : NoOnlyAt r P m)
    → NoOnlyAt r P (m >>= answer)
answer-NoOnlyAt {W = W} {r = r} {P = P} {m = m} differs = record {
  at_it = Returns-follow _ _ (m r) differs.at_it go;
}
  where
    go :
        (differ : Bool) (r : Run W)
        → (differ ≡ false → P)
        → Returns (λ a _. a ≡ false → P) (answer differ r)
    go true r p = λ e. absurd (ground (arith, e))
    go false r p = λ _. p refl

map-NoOnlyAt :
    {W : Type 0} {w : W} {P Q : Type 0} {m : Exec W Bool} (f : P → Q) (p : NoOnlyAt w P m)
    → NoOnlyAt w Q m
map-NoOnlyAt {W = W} {w = w} {P = P} {Q = Q} {m = m} f p = record {
  at_it =
      Returns-map (λ a _. a ≡ false → P) (λ a _. a ≡ false → Q) (m w) (λ a _ same e. f (same e))
        p.at_it;
}

any-NoOnlyIf : {W : Type 0} (m : Exec W Bool) → NoOnlyIf (Unit {0}) m
any-NoOnlyIf m = record { holds = λ w. Returns-self _ (m w) (λ _ _ _ _. tt) }

-- The chain of `compare_container`: the second comparison is the one that counts.
chain-NoOnlyAt :
    {W : Type 0} {r : Run W} {P : Type 0} (a : Bool) (b c d : Exec (Run W) Bool)
    (differs : NoOnlyAt r P b)
    → NoOnlyAt r P (pure a or_else b or_else c or_else d)
chain-NoOnlyAt a b c d differs =
    map-NoOnlyAt (λ x. x.1.0)
      (pure_then {a = a} (λ _. tt) (call_then differs (any-NoOnlyIf c then any-NoOnlyIf d)))

-- The run has the engine report a container of the name, and the report matches the parameters.
abbrev DockerReport : {W : Type 0} → Docker W → Params → Run W → Type 0
DockerReport {W} docker params r =
    (info : ContainerInfo) × (r' : Run W) × DockerMatches.Inspected docker params r info r'
    × DockerMatches.Matches docker params info r'

-- The run looks the container up, and then has that report.
abbrev pub DockerMatched : {W : Type 0} → Docker W → Params → Run W → Type 0
DockerMatched {W} docker params r =
    (found : Option ContainerEntry) × (r' : Run W) × (DockerImages.check_container docker params r
      ≡ (ok found, r'))
    × DockerReport docker params r'

module _ {W : Type 0} (docker : Docker W) (params : Params) (host : SystemdHost W)
    (u : ContainerUnit) where
  docker_compare-NoOnlyAt :
      (r : Run W)
      → NoOnlyAt r
          (DockerMatched docker params r)
          (DockerDiffers.compare_container docker params host u)
  unfolding DockerDiffers.compare_container
  docker_compare-NoOnlyAt r = record {
    at_it = Returns-bind _ _ (DockerImages.check_container docker params) r (λ found r' called.
        (map-NoOnlyAt {P = DockerReport docker params r'} {Q = DockerMatched docker params r}
          (λ report. (found, r', called, report))
          (answer-NoOnlyAt (
            chain-NoOnlyAt (not (is_found found))
              (DockerDiffers.check_container_differs docker params)
              (DockerDiffers.compare_config docker params) (call (check_unit_change host u ""))
              (record {
                at_it = DockerMatches.check_container_differs-Matches docker params r';
              })))).at_it);
  }

  pub docker_worker-Contract :
      Contract params
        (docker_worker docker params host u)
        (DockerMatched docker params)
        (DockerStarted.IsStarted docker params host u)
  unfolding docker_worker
  docker_worker-Contract = record {
    compares = docker_compare-NoOnlyAt;
    starts = λ detached r. DockerStarted.start_container-IsStarted docker params host u r detached;
  }

-- The run has the engine report a container of the name, and the report matches the parameters.
abbrev PodmanReport : {W : Type 0} → Podman W → Params → Run W → Type 0
PodmanReport {W} podman params r =
    (info : ContainerInfo) × (r' : Run W) × PodmanMatches.Reported podman params r info r'
    × PodmanMatches.Matches podman params info r'

-- The run looks the container up, and then has that report.
abbrev pub PodmanMatched : {W : Type 0} → Podman W → Params → Run W → Type 0
PodmanMatched {W} podman params r =
    (found : Option Container) × (r' : Run W) × (PodmanImages.check_container podman params r
      ≡ (ok found, r'))
    × PodmanReport podman params r'

module _ {W : Type 0} (podman : Podman W) (params : Params) (host : SystemdHost W)
    (u : ContainerUnit) where
  podman_compare-NoOnlyAt :
      (r : Run W)
      → NoOnlyAt r
          (PodmanMatched podman params r)
          (PodmanDiffers.compare_container podman params host u)
  unfolding PodmanDiffers.compare_container
  podman_compare-NoOnlyAt r = record {
    at_it = Returns-bind _ _ (PodmanImages.check_container podman params) r (λ found r' called.
        (map-NoOnlyAt {P = PodmanReport podman params r'} {Q = PodmanMatched podman params r}
          (λ report. (found, r', called, report))
          (answer-NoOnlyAt (
            chain-NoOnlyAt (not (is_found found))
              (PodmanDiffers.check_container_differs podman params)
              (PodmanDiffers.compare_config podman params) (call (check_unit_change host u ""))
              (record { at_it = PodmanMatches.podman_differs-Matches podman params r' })))).at_it);
  }

  pub podman_worker-Contract :
      Contract params
        (podman_worker podman params host u)
        (PodmanMatched podman params)
        (PodmanStarted.IsStarted podman params host u)
  unfolding podman_worker
  podman_worker-Contract = record {
    compares = podman_compare-NoOnlyAt;
    starts = λ detached r. PodmanStarted.podman_start-IsStarted podman params host u r detached;
  }
