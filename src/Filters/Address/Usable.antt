-- ===== src/Filters/Address/Usable.antt =====
-- The addresses that kolla_address returns.
use mathlib.Core.Path.{subst}
use irnmn.Prelude.{
  String, ◌≡◌, refl, Bool, true, false, not, ◌&&◌, ◌||◌, ◌==◌, eq_iff, Bool-cases, inl, inr, ◌⊎◌,
  arith, any, select, List, [], ◌∷◌, ◌&◌, Option, none, some, ◌∙◌, ap,
}
use irnmn.Text.{lower, replace}
use irnmn.Values.{Value, text, value_eq, get}
use irnmn.Effect.{Result, ok, err}
use irnmn.Effect.Post.{Gives, Gives-map}
use irnmn.Filters.Address.{
  Ipv6, Interface, Host, TemplateContext, lookup, ◌>>=◌, need, need_text, first_address,
  override_address, vip_addresses, enable_haproxy, is_global, global_address, address_of,
  interface_address, or_interface, host_named, kolla_address,
}

Gives-bind :
    {A B : Type 0} (Q : B → Type 0) (m : Result A) (f : A → Result B)
    → ((a : A) → m ≡ ok a → Gives Q (f a))
    → Gives Q (m >>= f)
Gives-bind Q (ok a) f h = h a refl
Gives-bind Q (err e) f h = tt

Gives-need : {A : Type 0} (o : Option A) (m : String) → Gives (λ a. o ≡ some a) (need o m)
Gives-need none m = tt
Gives-need (some a) m = refl

module _ (format_address : Value → Option String) (call_bool_filter : Value → Result Bool) where
  -- A global address of the list, and where HAProxy is enabled not a virtual one.
  abbrev pub IsGlobal : Host → List Ipv6 → String → Type 0
  IsGlobal host listed address =
      (haproxy_enabled : Bool) × (enable_haproxy format_address call_bool_filter host
        ≡ ok haproxy_enabled)
      × (any (λ found. found.address == address && found.scope == "global") listed ≡ true)
      × (any (value_eq (text address))
            (vip_addresses format_address call_bool_filter host haproxy_enabled)
          ≡ false)

  -- The address of the interface, by its family.
  abbrev pub IsAddressOf : Host → Interface → String → Type 0
  IsAddressOf host interface address =
      (interface.ipv4 ≡ some (some address))
      ⊎ ((listed : List Ipv6) × (interface.ipv6 ≡ some listed) × IsGlobal host listed address)

  some_is : (a b : String) → ◌≡◌ {A = Option String} (some a) (some b) → a ≡ b
  some_is a b h = ground (arith, h)

  first-global :
      (vips : List Value) (listed : List Ipv6) (address : String)
      → first_address (select (is_global format_address call_bool_filter vips) listed)
        ≡ some address
      → (any (λ found. found.address == address && found.scope == "global") listed ≡ true)
        × (any (value_eq (text address)) vips ≡ false)
  first-global vips [] address h = absurd (ground (arith, h))
  first-global vips (found ∷ rest) address h =
      elim (Bool-cases (is_global format_address call_bool_filter vips found)) [
        | inl global ↦
            let here : found.address ≡ address = some_is found.address address (rw global at h) in
            (
              ground (arith, global, eq_iff found.address address, here),
              subst (λ a. any (value_eq (text a)) vips ≡ false) here (ground (arith, global)),
            )
        | inr other ↦
            let (listed, free) = first-global vips rest address (rw other at h) in
            let later : any (λ x. x.address == address && x.scope == "global") rest ≡ true =
              listed in
            (ground (arith, later), free)
      ]

  global_of :
      (host : Host) (interface : Interface) (listed : List Ipv6)
      → interface.ipv6 ≡ some listed
      → Gives
          (λ found. (address : String) → found ≡ some address → IsAddressOf host interface address)
          (global_address format_address call_bool_filter host listed)
  global_of host interface listed there =
      Gives-bind _ (enable_haproxy format_address call_bool_filter host) _ (λ enabled is address e.
        let (global, free) =
          first-global (vip_addresses format_address call_bool_filter host enabled) listed address
            e in
        inr (listed, there, (enabled, is, global, free)))

  address_of-Gives :
      (host : Host) (interface : Interface) (family : String)
      → Gives
          (λ found. (address : String) → found ≡ some address → IsAddressOf host interface address)
          (address_of format_address call_bool_filter host interface family)
  address_of-Gives host interface family = elim (Bool-cases (family == "ipv4")) [
    | inl four ↦ rw four (
        Gives-map _ _ (need interface.ipv4 "Address family undefined on interface")
          (λ found there address e. inl (there ∙ ap some e)) (Gives-need interface.ipv4 _))
    | inr other ↦ elim (Bool-cases (family == "ipv6")) [
      | inl six ↦
          rw (other, six)
            (Gives-bind _ (need interface.ipv6 "Address family undefined on interface")
              (global_address format_address call_bool_filter host)
              (λ listed there.
                global_of host interface listed (
                  subst (Gives (λ a. interface.ipv6 ≡ some a)) there
                    (Gives-need interface.ipv6 _))))
      | inr neither ↦ rw (other, neither) tt
    ]
  ]

  -- The address of an interface of the host.
  abbrev pub IsUsable : Host → String → Type 0
  IsUsable host address =
      (name : String) × (interface : Interface) × (lookup name host.interfaces ≡ some interface)
      × IsAddressOf host interface address

  interface_address-Gives :
      (network_name : String) (host : Host)
      → Gives (IsUsable host) (interface_address format_address call_bool_filter network_name host)
  unfolding interface_address
  interface_address-Gives network_name host =
      Gives-bind _ (need_text (get (network_name & "_interface") host.variables) _) _ (λ name _.
        Gives-bind _ (need_text (get (network_name & "_address_family") host.variables) _) _
          (λ family _. elim (Bool-cases (not (lower family == "ipv4" || lower family == "ipv6"))) [
            | inl unknown ↦ rw unknown tt
            | inr known ↦ rw known (
                Gives-bind _ (need (lookup (replace "-" "_" name) host.interfaces) _) _
                  (λ interface there.
                    Gives-bind _
                      (address_of format_address call_bool_filter host interface (lower family)) _
                      (λ found is.
                        Gives-map (λ address. found ≡ some address) (IsUsable host) (need found _)
                          (λ address e. (
                            replace "-" "_" name,
                            interface,
                            subst
                                (Gives
                                  (λ i. lookup (replace "-" "_" name) host.interfaces ≡ some i))
                                there (Gives-need _ _),
                            subst
                                (Gives (λ found.
                                  (address : String)
                                  → found ≡ some address
                                  → IsAddressOf host interface address))
                                is (address_of-Gives host interface (lower family)) address e,
                          ))
                          (Gives-need found _))))
          ]))

-- An address that is returned is that of the host's override, or that of an interface of the host:
-- its IPv4 address, or one of its global IPv6 addresses, which is not a virtual address if HAProxy is
-- enabled.
pub kolla_address-Gives :
    (format_address : Value → Option String) (call_bool_filter : Value → Result Bool)
    (context : TemplateContext) (network_name : String) (hostname override_var : Option String)
    → Gives
        (λ address.
          (host : Host) × (host_named format_address call_bool_filter context hostname ≡ ok host)
          × ((override_address format_address call_bool_filter override_var host
                ≡ ok (some address))
              ⊎ IsUsable format_address call_bool_filter host address))
        (kolla_address format_address call_bool_filter context network_name hostname override_var)
unfolding kolla_address
kolla_address-Gives format_address call_bool_filter context network_name hostname override_var =
    Gives-bind _ (host_named format_address call_bool_filter context hostname) _ (λ host named.
      Gives-bind _ (override_address format_address call_bool_filter override_var host) _
        (λ override is. go host named override is))
  where
    go :
        (host : Host)
        → host_named format_address call_bool_filter context hostname ≡ ok host
        → (override : Option String)
        → override_address format_address call_bool_filter override_var host ≡ ok override
        → Gives
            (λ address.
              (host : Host) × (host_named format_address call_bool_filter context hostname
                ≡ ok host)
              × ((override_address format_address call_bool_filter override_var host
                    ≡ ok (some address))
                  ⊎ IsUsable format_address call_bool_filter host address))
            (or_interface format_address call_bool_filter network_name host override)
    go host named (some address) is = (host, named, inl is)
    go host named none is =
        Gives-map (IsUsable format_address call_bool_filter host) _ _
          (λ address usable. (host, named, inr usable))
          (interface_address-Gives format_address call_bool_filter network_name host)
