-- ===== src/Attr.antt =====
-- Attributes of the OpenStack resources, read by `getattr(resource, name, default)` in
-- plugins/mistral_power_actions and plugins/masakari_ironic_fence.
use irnmn.Prelude.{String, Bool, true, false, not, ◌==◌, is_blank}

-- An attribute that the resource lacks, one that is `None`, and one that holds a text.
pub data Attr : Type 0 where
  missing null : Attr
  text : String → Attr

-- `getattr(resource, name, default)`
abbrev pub get_attr : Attr → Attr → Attr
get_attr missing default = default
get_attr null default = null
get_attr (text s) default = text s

-- `value == s` for a text `s`
abbrev pub is_text : Attr → String → Bool
is_text (text t) s = t == s
is_text _ s = false

-- `bool(value)`
abbrev pub truthy : Attr → Bool
truthy (text t) = not (is_blank t)
truthy _ = false

-- `a or b`
abbrev pub or_attr : Attr → Attr → Attr
or_attr missing b = b
or_attr null b = b
or_attr (text t) b = elim (is_blank t) [ true ↦ b | false ↦ text t ]

-- `getattr(resource, name, False)` of a flag: a flag that is missing or `None` is false.
pub data Flag : Type 0 where
  unset : Flag
  flag : Bool → Flag

abbrev pub is_set : Flag → Bool
is_set unset = false
is_set (flag b) = b
