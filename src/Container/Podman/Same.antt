-- ===== src/Container/Podman/Same.antt =====
-- What each comparison of PodmanWorker that finds no difference has found equal.
use text.Mathlib.Text.{starts_with}
use irnmn.Prelude.{
  Bool, ◌||◌, ◌∙◌, ◌&◌, sym, select, String, ◌≡◌, refl, true, false, not, ◌&&◌, ◌==◌, eq_iff,
  is_blank, all, any, map, List, [], ◌∷◌, Option, none, some, Bool-cases, inl, inr, ◌⊎◌, arith,
  if◌then◌else◌,
}
use irnmn.Text.{ends_with}
use irnmn.Text.Split.{split_all}
use irnmn.Effect.{Result, ok, err}
use irnmn.Container.Params.{Params, ContainerInfo}
use irnmn.Container.Volumes.{Bind, Volumes, generate_volumes}
use irnmn.Container.Compare.{member, sets_differ, same_option}
use irnmn.Container.Compare.Sets.{SameMembers, sets_differ_iff, member-append, member-select}
use irnmn.Container.Differs.Same.{ok_false}
use irnmn.Container.Podman.Compare.{
  is_added, with_access, normalize_mode, check_slash, bind_flags, is_none, compare_pid_mode,
  build_bind_list, same_bind, binds_differ, slashed, volumes_differ, both_volumes, compare_volumes,
}

-- No mode is asked for where the engine says `private`, or nothing.
abbrev pub HasPidMode : Option String → String → Type 0
HasPidMode none current = (current ≡ "private") ⊎ (is_blank current ≡ true)
HasPidMode (some mode) current = mode ≡ current

-- A path with a slash at its end.
abbrev pub closed : String → String
closed path = if is_blank path || ends_with "/" path then path else path & "/"

-- A flag that Podman adds by itself to a mount at the path.
abbrev pub is_engines : String → String → Bool
is_engines path flag =
    any (λ f. f == flag) ("rprivate" ∷ "nosuid" ∷ "nodev" ∷ "rbind" ∷ [])
    || ((flag == "noexec")
        && any (λ prefix. starts_with path prefix) ("/proc" ∷ "/run" ∷ "/sys" ∷ "/var/run" ∷ []))

-- The flag is written in the mode, and not one of the engine's own.
abbrev pub is_written : String → String → String → Bool
is_written path mode flag =
    member flag (if is_blank mode then [] else split_all 44 mode) && not (is_engines path flag)

-- The mode has the flag: it is written, or it is `rw` where neither `ro` nor `rw` is written.
abbrev pub has_flag : String → String → String → Bool
has_flag path mode flag =
    is_written path mode flag
    || (not (is_written path mode "ro" || is_written path mode "rw") && ("rw" == flag))

-- A bind with the same source, target and flags.
abbrev pub IsBind : String × Bind → String × Bind → Type 0
IsBind (source, a) (other, b) =
    (closed source ≡ closed other)
    × (closed a.bind ≡ closed b.bind)
    × ((flag : String)
        → has_flag (closed a.bind) a.mode flag ≡ has_flag (closed b.bind) b.mode flag)

-- `P` of some element of the list.
pub data Some {A : Type 0} (P : A → Type 0) : List A → Type 0 where
  here : {x : A} {xs : List A} → P x → Some P (x ∷ xs)
  there : {x : A} {xs : List A} → Some P xs → Some P (x ∷ xs)

pub data Every {A : Type 0} (P : A → Type 0) : List A → Type 0 where
  done : Every P []
  and_then : {x : A} {xs : List A} → P x → Every P xs → Every P (x ∷ xs)

abbrev pub Covers : List (String × Bind) → List (String × Bind) → Type 0
Covers xs ys = Every (λ x. Some (IsBind x) ys) xs

-- The paths of the volumes that have one.
abbrev pub targets : List String → List String
targets paths = map closed (select (λ path. not (is_blank path)) paths)

-- The engine's volumes and binds are those that are declared, but for final slashes and the flags
-- that the engine adds.
abbrev pub HasVolumes : Params → ContainerInfo → Type 0
HasVolumes params info =
    (asked current : Volumes) × (generate_volumes params.volumes ≡ ok asked)
    × (generate_volumes info.binds ≡ ok current)
    × SameMembers (targets asked.vol_list) (targets current.vol_list)
    × Covers asked.vol_dict current.vol_dict
    × Covers current.vol_dict asked.vol_dict

flags-normalize :
    (path mode flag : String) → member flag (normalize_mode path mode) ≡ has_flag path mode flag
unfolding normalize_mode
flags-normalize path mode flag =
    access flag kept
    ∙ rw
        (
          member-select flag (λ f. not (is_added path f)) parts,
          member-select "ro" (λ f. not (is_added path f)) parts,
          member-select "rw" (λ f. not (is_added path f)) parts,
        )
        refl
  where
    parts : List String
    parts = if is_blank mode then [] else split_all 44 mode

    kept : List String
    kept = select (λ f. not (is_added path f)) parts

    access :
        (flag : String) (flags : List String)
        → member flag (with_access flags)
          ≡ (member flag flags || (not (member "ro" flags || member "rw" flags) && ("rw" == flag)))
    access flag flags = elim (Bool-cases (member "ro" flags || member "rw" flags)) [
      | inl has ↦ rw has (ground arith)
      | inr lacks ↦ rw lacks (ground (arith, member-append flag flags ("rw" ∷ [])))
    ]

same_bind-IsBind :
    (x y : String × Bind) → same_bind (bind_flags x) (bind_flags y) ≡ true → IsBind x y
same_bind-IsBind (source, a) (other, b) h =
    let flags : sets_differ (normalize_mode (check_slash a.bind) a.mode)
          (normalize_mode (check_slash b.bind) b.mode)
        ≡ false =
      ground (arith, h) in
    (
      (eq_iff (check_slash source) (check_slash other)).0 (ground (arith, h)),
      (eq_iff (check_slash a.bind) (check_slash b.bind)).0 (ground (arith, h)),
      λ flag.
          sym (flags-normalize (check_slash a.bind) a.mode flag)
          ∙ ((sets_differ_iff _ _).0 flags flag ∙ flags-normalize (check_slash b.bind) b.mode flag),
    )

any-Some :
    (x : String × Bind) (ys : List (String × Bind))
    → any (same_bind (bind_flags x)) (map bind_flags ys) ≡ true
    → Some (IsBind x) ys
any-Some x [] h = absurd (ground (arith, h))
any-Some x (y ∷ ys) h = elim (Bool-cases (same_bind (bind_flags x) (bind_flags y))) [
  | inl same ↦ here (same_bind-IsBind x y same)
  | inr other ↦ there (any-Some x ys (rw other at h))
]

all-Covers :
    (xs ys : List (String × Bind))
    → all (λ x. any (same_bind x) (map bind_flags ys)) (map bind_flags xs) ≡ true
    → Covers xs ys
all-Covers [] ys h = done
all-Covers (x ∷ xs) ys h =
    let now : any (same_bind (bind_flags x)) (map bind_flags ys) ≡ true = ground (arith, h) in
    let later : all (λ x. any (same_bind x) (map bind_flags ys)) (map bind_flags xs) ≡ true =
      ground (arith, h) in
    and_then (any-Some x ys now) (all-Covers xs ys later)

binds_differ-Covers :
    (xs ys : List (String × Bind))
    → binds_differ (map bind_flags xs) (map bind_flags ys) ≡ false
    → Covers xs ys × Covers ys xs
unfolding binds_differ
binds_differ-Covers xs ys h =
    (all-Covers xs ys (ground (arith, h)), all-Covers ys xs (ground (arith, h)))

module _ (params : Params) (info : ContainerInfo) where
  pub pid_mode-same :
      compare_pid_mode params info ≡ false → HasPidMode params.pid_mode info.pid_mode
  unfolding compare_pid_mode
  pid_mode-same h = go params.pid_mode h
    where
      go :
          (mode : Option String)
          → (if is_none mode && info.pid_mode == "private"
              then false
              else not (same_option mode info.pid_mode))
            ≡ false
          → HasPidMode mode info.pid_mode
      go none h = elim (Bool-cases (info.pid_mode == "private")) [
        | inl private ↦ inl ((eq_iff info.pid_mode "private").0 private)
        | inr other ↦ inr (ground (arith, h, other))
      ]
      go (some mode) h = (eq_iff mode info.pid_mode).0 (ground (arith, h))

  pub volumes-same : compare_volumes params info ≡ ok false → HasVolumes params info
  unfolding compare_volumes build_bind_list
  volumes-same h = go (generate_volumes params.volumes) (generate_volumes info.binds) refl refl h
    where
      go :
          (asked current : Result Volumes)
          → generate_volumes params.volumes ≡ asked
          → generate_volumes info.binds ≡ current
          → both_volumes asked current ≡ ok false
          → HasVolumes params info
      go (err e) current e1 e2 h = absurd (ground (arith, h))
      go (ok asked) (err e) e1 e2 h = absurd (ground (arith, h))
      go (ok asked) (ok current) e1 e2 h =
          let differ : volumes_differ asked current ≡ false = ok_false _ h in
          let volumes : sets_differ (slashed asked.vol_list) (slashed current.vol_list) ≡ false =
            ground (arith, differ) in
          let binds : binds_differ (map bind_flags asked.vol_dict) (map bind_flags current.vol_dict)
              ≡ false =
            ground (arith, differ) in
          let (asked_there, current_asked) =
            binds_differ-Covers asked.vol_dict current.vol_dict binds in
          (asked, current, e1, e2, (sets_differ_iff _ _).0 volumes, asked_there, current_asked)
