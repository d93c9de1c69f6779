-- ===== src/Segment/Hosts/Settled.antt =====
-- The loop over the desired hosts when nothing differs.
use irnmn.Prelude.{ℕ, ◌+◌, ◌≡◌, refl, Bool, List, [], ◌∷◌, All, Option, none, some, arith}
use irnmn.Effect.{ok}
use irnmn.Segment.Spec.{HostSpec}
use irnmn.Segment.InstanceHa.{Segment, SegmentHost, InstanceHa}
use irnmn.Segment.Hosts.{find_host, host_updates, reconcile_host, reconcile_hosts}

-- The desired host is there, with the desired attributes.
abbrev pub IsMet : HostSpec → Option SegmentHost → Type 0
IsMet desired none = ⊥
IsMet desired (some host) = host_updates desired host ≡ []

module _ {W : Type 0} (client : InstanceHa W) (segment : Segment) (check_mode : Bool) where
  host_met :
      (desired : HostSpec) (found : Option SegmentHost) (w : W)
      → IsMet desired found
      → reconcile_host client segment check_mode desired found w ≡ (ok 0, w)
  unfolding reconcile_host
  host_met desired none w met = absurd met
  host_met desired (some host) w met = rw met refl

-- Hosts that are all there with their attributes are left alone, and none is counted as changed.
reconcile_hosts-Settled :
    {W : Type 0} (client : InstanceHa W) (segment : Segment) (check_mode : Bool)
    (existing : List SegmentHost) (n : ℕ) (desired : List HostSpec) (w : W)
    → All (λ d. IsMet d (find_host d.name existing)) desired
    → reconcile_hosts client segment check_mode existing n desired w ≡ (ok n, w)
unfolding reconcile_hosts
reconcile_hosts-Settled client segment check_mode existing n [] w met = refl
reconcile_hosts-Settled client segment check_mode existing n (d ∷ rest) w (here, later) =
    let zero_more : n + 0 ≡ n = omega arith in
    rw (host_met client segment check_mode d (find_host d.name existing) w here, zero_more)
      (reconcile_hosts-Settled client segment check_mode existing n rest w later)
