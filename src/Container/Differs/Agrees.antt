-- ===== src/Container/Differs/Agrees.antt =====
-- A container in which `check_container_differs` finds no difference agrees with the parameters, as far
-- as the worker's own comparisons promise.
use irnmn.Prelude.{
  ◌≡◌, ◌≢◌, String, refl, ap, eq_iff, ◌==◌, Bool-cases, inl, inr, false, Option, none, some, arith,
}
use irnmn.Effect.{ok}
use irnmn.Effect.Post.{Returns, Returns-bind, Returns-map}
use irnmn.Container.Params.{Params, ContainerInfo}
use irnmn.Container.Volumes.{generate_tmpfs}
use irnmn.Container.Compare.{is_option, compare_security_opt, current_cgroupns_mode}
use irnmn.Container.Compare.Sets.{SameMembers}
use irnmn.Container.Compare.Parsing.{Labels}
use irnmn.Container.Differs.{
  Comparisons, compare_labels, compare_healthcheck, info_differs, found_differs,
}
use irnmn.Container.Differs.Command.{HasCommand, command-same}
use irnmn.Container.Differs.SameLabels.{HasLabels, labels-same}
use irnmn.Container.Differs.NoOnlyIf.{
  NoOnlyIf, NoOnlyAt, call_then, pure_then, ◌then◌, lift-NoOnlyIf, pure-NoOnlyIf,
}
use irnmn.Container.Differs.Same.{
  IsMode, IsState, HasEnvironment, security_opt-same, ipc_mode-same, cgroupns_mode-same,
  privileged-same, tmpfs-same, volumes_from-same, state-same, environment-same,
}

-- What the worker's own comparisons promise where they find no difference, the image being compared
-- in the given state.
pub record Promises {W : Type 0} (own : Comparisons W) (info : ContainerInfo) (w : W)
    (Caps Image Pid Mounts : Type 0) : Type 0 where
  pub cap_add : own.compare_cap_add info ≡ false → Caps
  pub image : NoOnlyAt w Image (own.compare_image info)
  pub pid_mode : own.compare_pid_mode info ≡ false → Pid
  pub volumes : own.compare_volumes info ≡ ok false → Mounts

-- The worker has given labels of the image, with which the labels of the container are those
-- declared.
abbrev pub LabelsAgree : {W : Type 0} → Comparisons W → Params → ContainerInfo → Type 0
LabelsAgree {W} own params info =
    (image : Labels) × ((w : W) × ((own.image_labels w).0 ≡ ok image))
    × HasLabels params.labels info.labels image

-- With name spaces of its own and without all privileges, a container has the declared options.
abbrev pub HasSecurityOpt : Params → ContainerInfo → Type 0
HasSecurityOpt params info =
    params.ipc_mode ≢ some "host"
    → params.pid_mode ≢ some "host"
    → params.privileged ≡ false
    → SameMembers params.security_opt info.security_opt

option_not : (o : Option String) (s : String) → o ≢ some s → is_option o s ≡ false
option_not none s other = refl
option_not (some t) s other = elim (Bool-cases (t == s)) [
  | inl same ↦ absurd (other (ap some ((eq_iff t s).0 same)))
  | inr differs ↦ differs
]

security-HasSecurityOpt :
    (params : Params) (info : ContainerInfo)
    → compare_security_opt params info ≡ false
    → HasSecurityOpt params info
security-HasSecurityOpt params info h ipc pid plain =
    security_opt-same params info h (
      rw (option_not params.ipc_mode "host" ipc, option_not params.pid_mode "host" pid, plain) refl)

-- The declared parameters and what the engine reports of the container agree. The dimensions
-- and the health check agree by the comparison of the source.
pub record Agrees {W : Type 0} (own : Comparisons W) (params : Params) (info : ContainerInfo)
    (Caps Image Pid Mounts : Type 0) : Type 0 where
  pub cap_add : Caps
  pub security_opt : HasSecurityOpt params info
  pub image : Image
  pub ipc_mode : IsMode params.ipc_mode info.ipc_mode
  pub labels : LabelsAgree own params info
  pub privileged : params.privileged ≡ info.privileged
  pub pid_mode : Pid
  pub cgroupns_mode : IsMode params.cgroupns_mode (current_cgroupns_mode info)
  pub tmpfs : SameMembers info.tmpfs (generate_tmpfs params.tmpfs)
  pub volumes : Mounts
  pub volumes_from : SameMembers info.volumes_from params.volumes_from
  pub environment : HasEnvironment params info
  pub state : IsState params.state info.status
  pub dimensions : own.compare_dimensions info ≡ ok false
  pub command : HasCommand params info
  pub healthcheck : compare_healthcheck own params info ≡ ok false

compare_labels-NoOnlyIf :
    {W : Type 0} (own : Comparisons W) (params : Params) (info : ContainerInfo)
    → NoOnlyIf (LabelsAgree own params info) (compare_labels own params info)
unfolding compare_labels
compare_labels-NoOnlyIf {W = W} own params info = record {
  holds = λ w. Returns-bind _ _ own.image_labels w (λ image_labels w' given.
      let same : NoOnlyIf {W = W} _ _ = lift-NoOnlyIf (λ h. (
        image_labels,
        (w, λ i. (given i).0),
        labels-same params.labels info.labels image_labels h,
      )) in
      same.holds w');
}

module _ {W : Type 0} (own : Comparisons W) (params : Params) (info : ContainerInfo)
    (Caps Image Pid Mounts : Type 0) where
  -- What the comparisons find, in their order.
  abbrev Parts : Type 0
  Parts =
      Caps
      × (HasSecurityOpt params info
          × (Image
              × (IsMode params.ipc_mode info.ipc_mode
                  × (LabelsAgree own params info
                      × ((params.privileged ≡ info.privileged)
                          × (Pid
                              × (IsMode params.cgroupns_mode (current_cgroupns_mode info)
                                  × (SameMembers info.tmpfs (generate_tmpfs params.tmpfs)
                                      × (Mounts
                                          × (SameMembers info.volumes_from params.volumes_from
                                              × (HasEnvironment params info
                                                  × (IsState params.state info.status
                                                      × ((own.compare_dimensions info ≡ ok false)
                                                          × (HasCommand params info
                                                            × ((compare_healthcheck own params info
                                                            ≡ ok false))))))))))))))))

  gather : Parts → Agrees own params info Caps Image Pid Mounts
  gather
        (
          cap_add,
          (
            security_opt,
            (
              image,
              (
                ipc_mode,
                (
                  labels,
                  (
                    privileged,
                    (
                      pid_mode,
                      (
                        cgroupns_mode,
                        (
                          tmpfs,
                          (
                            volumes,
                            (
                              volumes_from,
                              (environment, (state, (dimensions, (command, healthcheck)))),
                            ),
                          ),
                        ),
                      ),
                    ),
                  ),
                ),
              ),
            ),
          ),
        ) =
      record {
        cap_add = cap_add;
        security_opt = security_opt;
        image = image;
        ipc_mode = ipc_mode;
        labels = labels;
        privileged = privileged;
        pid_mode = pid_mode;
        cgroupns_mode = cgroupns_mode;
        tmpfs = tmpfs;
        volumes = volumes;
        volumes_from = volumes_from;
        environment = environment;
        state = state;
        dimensions = dimensions;
        command = command;
        healthcheck = healthcheck;
      }

  all-NoOnlyAt :
      (w : W)
      → Promises own info w Caps Image Pid Mounts
      → NoOnlyAt w Parts (info_differs own params info)
  unfolding info_differs
  all-NoOnlyAt w p = pure_then p.cap_add (
      pure_then (security-HasSecurityOpt params info) (
        call_then p.image (
          pure-NoOnlyIf (ipc_mode-same params info)
          then compare_labels-NoOnlyIf own params info
          then pure-NoOnlyIf (privileged-same params info)
          then pure-NoOnlyIf (p.pid_mode)
          then pure-NoOnlyIf (cgroupns_mode-same params info)
          then pure-NoOnlyIf (tmpfs-same params info)
          then lift-NoOnlyIf (p.volumes)
          then pure-NoOnlyIf (volumes_from-same params info)
          then lift-NoOnlyIf (environment-same params info)
          then pure-NoOnlyIf (state-same params info)
          then lift-NoOnlyIf {r = own.compare_dimensions info} (λ same. same)
          then lift-NoOnlyIf (command-same params info)
          then lift-NoOnlyIf {r = compare_healthcheck own params info} (λ same. same))))

  pub info_differs-Agrees :
      (w : W)
      → Promises own info w Caps Image Pid Mounts
      → Returns
          (λ answer _. answer ≡ false → Agrees own params info Caps Image Pid Mounts)
          (info_differs own params info w)
  info_differs-Agrees w promises =
      Returns-map (λ answer _. answer ≡ false → Parts)
        (λ answer _. answer ≡ false → Agrees own params info Caps Image Pid Mounts) _
        (λ answer _ same e. gather (same e)) ((all-NoOnlyAt w promises).at_it)

-- A container that was found, of which `Found` holds, agrees; the other one differs.
abbrev pub IfFound : (ContainerInfo → Type 0) → Option ContainerInfo → Type 0
IfFound Found none = Unit
IfFound Found (some info) = Found info

pub found_differs-Agrees :
    {W : Type 0} (own : Comparisons W) (params : Params)
    (Found Caps Image Pid Mounts : ContainerInfo → Type 0) (found : Option ContainerInfo) (w : W)
    → ((info : ContainerInfo)
        → Promises own info w (Caps info) (Image info) (Pid info) (Mounts info))
    → IfFound Found found
    → Returns
        (λ answer _.
          answer ≡ false
          → (info : ContainerInfo) × Found info
            × Agrees own params info (Caps info) (Image info) (Pid info) (Mounts info))
        (found_differs own params found w)
unfolding found_differs
found_differs-Agrees own params Found Caps Image Pid Mounts none w promises there =
    λ e. absurd (ground (arith, e))
found_differs-Agrees own params Found Caps Image Pid Mounts (some info) w promises there =
    Returns-map
      (λ answer _.
        answer ≡ false → Agrees own params info (Caps info) (Image info) (Pid info) (Mounts info))
      _ _ (λ answer _ same e. (info, there, same e))
      (info_differs-Agrees own params info (Caps info) (Image info) (Pid info) (Mounts info) w
        (promises info))
