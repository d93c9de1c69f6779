-- ===== src/Segment/Spec/Normal.antt =====
-- What `normalize_segment_spec` guarantees of the specification that it returns.
use irnmn.Prelude.{
  String, ◌≡◌, refl, true, false, ◌==◌, is_blank, is_empty, List, [], ◌∷◌, Bool-cases, inl, inr,
}
use irnmn.Text.{strip, lower, upper}
use irnmn.Values.{text_or}
use irnmn.Effect.{Result, ok, err}
use irnmn.Effect.Post.{Gives}
use irnmn.Segment.Spec.{
  RawHost, not_mapping, host, RawSegment, HostSpec, SegmentSpec, known, is_recovery_method,
  host_before, normalize_hosts, with_hosts, normalize_segment_spec,
}

-- Named hosts with control attributes, whose names are not among those seen before and differ.
abbrev pub AreNamed : List String → List HostSpec → Type 0
AreNamed names [] = Unit
AreNamed names (h ∷ hs) =
    (is_blank h.name ≡ false)
    × (known h.name names ≡ false)
    × (is_blank h.control_attributes ≡ false)
    × AreNamed (h.name ∷ names) hs

abbrev pub IsSegment : SegmentSpec → Type 0
IsSegment spec =
    (is_blank spec.name ≡ false)
    × (is_recovery_method spec.recovery_method ≡ true)
    × (is_empty spec.hosts ≡ false)
    × AreNamed [] spec.hosts

host_before-Gives :
    (names : List String) (h : HostSpec) (r : Result (List HostSpec))
    → is_blank h.name ≡ false
    → known h.name names ≡ false
    → is_blank h.control_attributes ≡ false
    → Gives (AreNamed (h.name ∷ names)) r
    → Gives (AreNamed names) (host_before h r)
host_before-Gives names h (ok hs) named fresh controlled later = (named, fresh, controlled, later)
host_before-Gives names h (err e) named fresh controlled later = tt

normalize_hosts-Gives :
    (names : List String) (raw : List RawHost) → Gives (AreNamed names) (normalize_hosts names raw)
unfolding normalize_hosts
normalize_hosts-Gives names [] = tt
normalize_hosts-Gives names (not_mapping ∷ rest) = tt
normalize_hosts-Gives names (host n k a r m ∷ rest) =
    let name = strip (text_or n "") in
    elim (Bool-cases (is_blank name)) [
      | inl blank ↦ rw blank tt
      | inr named ↦ elim (Bool-cases (known name names)) [
        | inl twice ↦ rw (named, twice) tt
        | inr fresh ↦ elim (Bool-cases (upper (text_or k "COMPUTE") == "COMPUTE")) [
          | inr other ↦ rw (named, fresh, other) tt
          | inl compute ↦ elim (Bool-cases (is_blank (strip (text_or a "")))) [
            | inl free ↦ rw (named, fresh, compute, free) tt
            | inr controlled ↦
                rw (named, fresh, compute, controlled)
                  (host_before-Gives names _ _ named fresh controlled
                    (normalize_hosts-Gives (name ∷ names) rest))
          ]
        ]
      ]
    ]

with_hosts-Gives :
    (f : List HostSpec → SegmentSpec) (r : Result (List HostSpec))
    → Gives (AreNamed []) r
    → ((h : HostSpec) (hs : List HostSpec) → AreNamed [] (h ∷ hs) → IsSegment (f (h ∷ hs)))
    → Gives IsSegment (with_hosts f r)
with_hosts-Gives f (ok []) named build = tt
with_hosts-Gives f (ok (h ∷ hs)) named build = build h hs named
with_hosts-Gives f (err e) named build = tt

-- A specification that `normalize_segment_spec` returns has a name, a known recovery method and at
-- least one host; each host has a name, which no other has, and control attributes.
pub normalize_segment_spec-Gives : (raw : RawSegment) → Gives IsSegment (normalize_segment_spec raw)
unfolding normalize_segment_spec
normalize_segment_spec-Gives raw = elim (Bool-cases (is_blank (strip (text_or raw.name "")))) [
  | inl blank ↦ rw blank tt
  | inr named ↦ elim (Bool-cases (upper (text_or raw.service_type "") == "COMPUTE")) [
    | inr other ↦ rw (named, other) tt
    | inl compute ↦
        elim (Bool-cases (is_recovery_method (lower (text_or raw.recovery_method "")))) [
          | inr unknown ↦ rw (named, compute, unknown) tt
          | inl method ↦
              rw (named, compute, method)
                (with_hosts-Gives
                  (λ hosts. record {
                    name = strip (text_or raw.name "");
                    recovery_method = lower (text_or raw.recovery_method "");
                    description = text_or raw.description "";
                    hosts = hosts;
                  })
                  _ (normalize_hosts-Gives [] raw.hosts)
                  (λ h hs hosts. (named, method, refl, hosts)))
        ]
  ]
]
