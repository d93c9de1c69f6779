-- ===== src/Container/Podman/Caps.antt =====
-- The capabilities that PodmanWorker compares.
use text.Mathlib.Text.{starts_with}
use mathlib.Core.Path.{subst}
use irnmn.Prelude.{
  Bool, ◌||◌, ◌∙◌, ◌&◌, sym, String, ◌≡◌, refl, true, false, not, ◌&&◌, ◌==◌, eq_iff, any, map,
  List, [], ◌∷◌, Bool-cases, inl, inr, arith, if◌then◌else◌,
}
use irnmn.Text.{upper}
use irnmn.Container.Params.{Params, ContainerInfo}
use irnmn.Container.Compare.{member}
use irnmn.Container.Compare.Sets.{sets_differ_iff, member-append, member-map}
use irnmn.Container.Podman.Compare.{cap_name, audit_write, with_audit_write, compare_cap_add}

-- The capability in capitals and with the prefix `CAP_`.
abbrev pub full_name : String → String
full_name cap = if starts_with (upper cap) "CAP_" then upper cap else "CAP_" & upper cap

-- The capability is declared; a container that is not privileged has CAP_AUDIT_WRITE in any case.
abbrev pub is_asked : Params → ContainerInfo → String → Bool
is_asked params info cap =
    any (λ c. full_name c == cap) params.cap_add
    || (not info.privileged && ("CAP_AUDIT_WRITE" == cap))

abbrev pub is_reported : ContainerInfo → String → Bool
is_reported info cap =
    any (λ c. upper c == cap) info.cap_add || (not info.privileged && ("CAP_AUDIT_WRITE" == cap))

-- The container has the capabilities that are asked for, and no others.
abbrev pub HasCaps : Params → ContainerInfo → Type 0
HasCaps params info = (cap : String) → is_asked params info cap ≡ is_reported info cap

member-audit :
    (privileged : Bool) (cap : String) (caps : List String)
    → member cap (with_audit_write privileged caps)
      ≡ (member cap caps || (not privileged && ("CAP_AUDIT_WRITE" == cap)))
member-audit true cap caps = ground arith
member-audit false cap caps = elim (Bool-cases (member audit_write caps)) [
  | inl has ↦ elim (Bool-cases ("CAP_AUDIT_WRITE" == cap)) [
    | inl same ↦
        rw (has, same)
          (subst (λ c. member c caps ≡ (member c caps || true))
            ((eq_iff "CAP_AUDIT_WRITE" cap).0 same) (ground (arith, has)))
    | inr other ↦ rw (has, other) (ground arith)
  ]
  | inr lacks ↦ rw lacks (ground (arith, member-append cap caps (audit_write ∷ [])))
]

module _ (params : Params) (info : ContainerInfo) where
  pub cap_add-same : compare_cap_add params info ≡ false → HasCaps params info
  unfolding compare_cap_add
  cap_add-same h cap =
      sym (asked cap)
      ∙ ((sets_differ_iff (with_audit_write info.privileged (map cap_name params.cap_add))
              (with_audit_write info.privileged (map upper info.cap_add))).0
            h cap
          ∙ reported cap)
    where
      asked :
          (cap : String)
          → member cap (with_audit_write info.privileged (map cap_name params.cap_add))
            ≡ is_asked params info cap
      asked cap =
          member-audit info.privileged cap (map cap_name params.cap_add)
          ∙ rw (member-map cap cap_name params.cap_add) refl

      reported :
          (cap : String)
          → member cap (with_audit_write info.privileged (map upper info.cap_add))
            ≡ is_reported info cap
      reported cap =
          member-audit info.privileged cap (map upper info.cap_add)
          ∙ rw (member-map cap upper info.cap_add) refl
