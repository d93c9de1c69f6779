-- ===== src/Filters/Services/Selected.antt =====
-- What the filters on services return.
use mathlib.Core.Path.{subst}
use irnmn.Prelude.{
  String, ◌≡◌, refl, Bool, true, false, any, ◌&&◌, ◌||◌, ◌==◌, List, [], ◌∷◌, ◌++◌, select,
  Bool-cases, inl, inr, ap, sym, if◌then◌else◌,
}
use irnmn.Values.{Value, null, text, boolean}
use irnmn.Effect.{Result, ok, err}
use irnmn.Effect.Post.{Gives}
use irnmn.Filters.Services.{
  Service, share_name, service_enabled, add_haproxy, haproxy_from, extract_haproxy_services,
  keep_if, and_then, mapped_by, mapped_by_group, bool_or, service_enabled_and_mapped_to_host,
  select_services,
}

-- The call answered yes.
abbrev pub is_yes : Result Bool → Bool
is_yes (ok answer) = answer
is_yes (err e) = false

-- The entries of the enabled services.
abbrev pub entries_of : {H : Type 0} → (Value → Result Bool) → List (Service H) → List (String × H)
entries_of call_bool_filter [] = []
entries_of call_bool_filter (service ∷ rest) =
    if is_yes (service_enabled call_bool_filter service)
    then service.haproxy ++ entries_of call_bool_filter rest
    else entries_of call_bool_filter rest

-- The attribute is set, and the bool filter takes it as yes.
abbrev pub says_yes : (Value → Result Bool) → Value → Bool
says_yes call_bool_filter null = false
says_yes call_bool_filter (text s) = is_yes (call_bool_filter (text s))
says_yes call_bool_filter (boolean b) = is_yes (call_bool_filter (boolean b))

-- The name is that of a group of the host, or `all`.
abbrev pub is_group_of : List String → Value → Bool
is_group_of group_names (text g) = any (λ name. g == name) group_names || (g == "all")
is_group_of group_names _ = false

-- `host_in_groups` decides where it is set, and `group` where it is not.
abbrev pub is_on_host : (Value → Result Bool) → List String → Value → Value → Bool
is_on_host call_bool_filter group_names null group = is_group_of group_names group
is_on_host call_bool_filter group_names given group = says_yes call_bool_filter given

abbrev pub is_wanted : {H : Type 0} → (Value → Result Bool) → List String → Service H → Bool
is_wanted call_bool_filter group_names service =
    says_yes call_bool_filter service.enabled
    && is_on_host call_bool_filter group_names service.host_in_groups service.group

and_then-yes : (a b : Result Bool) → is_yes (and_then a b) ≡ (is_yes a && is_yes b)
and_then-yes (err e) b = refl
and_then-yes (ok false) b = refl
and_then-yes (ok true) b = refl

mapped_by_group-yes :
    (group_names : List String) (label : String) (group : Value)
    → is_yes (mapped_by_group group_names label group) ≡ is_group_of group_names group
mapped_by_group-yes group_names label null = refl
mapped_by_group-yes group_names label (text g) = refl
mapped_by_group-yes [] label (boolean b) = refl
mapped_by_group-yes (name ∷ rest) label (boolean b) = mapped_by_group-yes rest label (boolean b)

bool_or-yes :
    (call_bool_filter : Value → Result Bool) (v : Value) (message : String)
    → is_yes (bool_or call_bool_filter v message) ≡ says_yes call_bool_filter v
bool_or-yes call_bool_filter null message = refl
bool_or-yes call_bool_filter (text s) message = refl
bool_or-yes call_bool_filter (boolean b) message = refl

module _ {H : Type 0} (call_bool_filter : Value → Result Bool) (group_names : List String) where
  mapped_by-yes :
      (service : Service H) (given : Value)
      → is_yes (mapped_by call_bool_filter group_names service given)
        ≡ is_on_host call_bool_filter group_names given service.group
  mapped_by-yes service null = mapped_by_group-yes group_names service.label service.group
  mapped_by-yes service (text s) = refl
  mapped_by-yes service (boolean b) = refl

  enabled_and_mapped-yes :
      (service : Service H)
      → is_yes (service_enabled_and_mapped_to_host call_bool_filter group_names service)
        ≡ is_wanted call_bool_filter group_names service
  unfolding service_enabled_and_mapped_to_host
  enabled_and_mapped-yes service =
      rw
        (
          and_then-yes,
          bool_or-yes call_bool_filter service.enabled,
          mapped_by-yes service service.host_in_groups,
        )
        refl

  kept :
      (answer : Result Bool) (service : Service H) (r : Result (List (Service H)))
      (rest : List (Service H))
      → Gives (λ out. out ≡ rest) r
      → Gives
          (λ out. out ≡ (if is_yes answer then service ∷ rest else rest))
          (keep_if answer service r)
  kept (err e) service r rest later = tt
  kept (ok answer) service (err e) rest later = tt
  kept (ok true) service (ok services) rest later = ap (λ s. service ∷ s) later
  kept (ok false) service (ok services) rest later = later

  -- Where no definition raises, the services that the filter returns are, in their order, those
  -- that are enabled, by the bool filter, and on the host: by the bool filter of `host_in_groups`
  -- where it is set, and else by `group`, which is `all` or a group of the host.
  pub select_services-Gives :
      (services : List (Service H))
      → Gives
          (λ out. out ≡ select (λ s. is_wanted call_bool_filter group_names s) services)
          (select_services call_bool_filter group_names services)
  unfolding select_services
  select_services-Gives [] = refl
  select_services-Gives (service ∷ rest) =
      subst
        (λ yes.
          Gives (λ out. out ≡ (if yes then service ∷ wanted rest else wanted rest))
            (select_services call_bool_filter group_names (service ∷ rest)))
        (enabled_and_mapped-yes service)
        (kept (service_enabled_and_mapped_to_host call_bool_filter group_names service) service
          (select_services call_bool_filter group_names rest) _ (select_services-Gives rest))
    where
      wanted : List (Service H) → List (Service H)
      wanted = select (λ s. is_wanted call_bool_filter group_names s)

pub append_assoc : {A : Type 0} (xs ys zs : List A) → (xs ++ ys) ++ zs ≡ xs ++ (ys ++ zs)
append_assoc [] ys zs = refl
append_assoc (x ∷ xs) ys zs = ap (λ l. x ∷ l) (append_assoc xs ys zs)

pub append_nil : {A : Type 0} (xs : List A) → xs ++ [] ≡ xs
append_nil [] = refl
append_nil (x ∷ xs) = ap (λ l. x ∷ l) (append_nil xs)

module _ {H : Type 0} (call_bool_filter : Value → Result Bool) where
  added :
      (answer : Result Bool) (found entries rest : List (String × H))
      (later : List (String × H) → Result (List (String × H)))
      → ((f : List (String × H)) → Gives (λ out. out ≡ f ++ rest) (later f))
      → Gives
          (λ out. out ≡ found ++ (if is_yes answer then entries ++ rest else rest))
          (add_haproxy answer found entries later)
  added (err e) found entries rest later h = tt
  added (ok false) found entries rest later h = h found
  added (ok true) found entries rest later h = elim (Bool-cases (share_name found entries)) [
    | inl shared ↦ rw shared tt
    | inr apart ↦ rw apart (
        subst (λ l. Gives (λ out. out ≡ l) (later (found ++ entries)))
          (append_assoc found entries rest) (h (found ++ entries)))
  ]

  from-Gives :
      (services : List (Service H)) (found : List (String × H))
      → Gives
          (λ out. out ≡ found ++ entries_of call_bool_filter services)
          (haproxy_from call_bool_filter found services)
  unfolding haproxy_from
  from-Gives [] found = sym (append_nil found)
  from-Gives (service ∷ rest) found =
      added (service_enabled call_bool_filter service) found service.haproxy _ _
        (λ f. from-Gives rest f)

  -- The entries that the filter returns are those of the enabled services, in their order.
  extract_haproxy_services-Gives :
      (services : List (Service H))
      → Gives
          (λ out. out ≡ entries_of call_bool_filter services)
          (extract_haproxy_services call_bool_filter services)
  unfolding extract_haproxy_services
  extract_haproxy_services-Gives services = from-Gives services []
