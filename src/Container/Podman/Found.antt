-- ===== src/Container/Podman/Found.antt =====
-- The container that PodmanWorker looks up by its name.
use irnmn.Prelude.{
  String, ◌≡◌, ◌==◌, eq_iff, Bool-cases, inl, inr, List, [], ◌∷◌, Option, none, some,
}
use irnmn.Effect.{ok}
use irnmn.Effect.Post.{Returns, Returns-bind}
use irnmn.Container.Params.{Params}
use irnmn.Container.Engine.{Run, call}
use irnmn.Container.Podman.Engine.{Container, Podman}
use irnmn.Container.Podman.Images.{first_named, check_container}

-- The engine has just reported the container, which has the name, in a call that left the world.
abbrev pub IsReported : {W : Type 0} → Podman W → Params → W → Container → Type 0
IsReported {W} podman params w' container =
    (w : W) × ((id : String) × (podman.reload id w ≡ (ok container, w')))
    × (params.name ≡ container.name)

abbrev pub ReportedIfFound : {W : Type 0} → Podman W → Params → W → Option Container → Type 0
ReportedIfFound podman params w' none = Unit
ReportedIfFound podman params w' (some container) = IsReported podman params w' container

module _ {W : Type 0} (podman : Podman W) (params : Params) where
  first_named-Returns :
      (ids : List String) (r : Run W)
      → Returns
          (λ found r'. ReportedIfFound podman params r'.world found)
          (first_named podman params ids r)
  unfolding first_named
  first_named-Returns [] r = tt
  first_named-Returns (id ∷ ids) r =
      Returns-bind _ _ (call (podman.reload id)) r (λ container r' called.
        elim (Bool-cases (params.name == container.name)) [
          | inl same ↦ rw same (
            r.world,
            (id, λ i. ((called i).0, (called i).1.world)),
            (eq_iff params.name container.name).0 same,
          )
          | inr other ↦ rw other (first_named-Returns ids r')
        ])

  pub check_container-Returns :
      (r : Run W)
      → Returns
          (λ found r'. ReportedIfFound podman params r'.world found)
          (check_container podman params r)
  unfolding check_container
  check_container-Returns r =
      Returns-bind _ _ (call podman.containers) r (λ ids r' _. first_named-Returns ids r')
