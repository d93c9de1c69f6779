-- ===== src/PowerOps/Servers/Emptied.antt =====
-- `assert_host_empty` of operations.py returns only on the evidence of its listing of the servers.
use irnmn.Prelude.{
  String, ◌≡◌, refl, Bool, true, false, not, ◌&&◌, List, [], ◌∷◌, map, select, all, is_empty, All,
  ◌&◌, arith, inl, inr, ◌⊎◌,
}
use irnmn.Effect.{Result, ok, err, continue, pure, raise_if, host_not_empty, ◌>>◌}
use irnmn.Effect.Post.{Returns, Returns-raise_if}
use irnmn.PowerOps.Cloud.{Server, Cloud}
use irnmn.PowerOps.Servers.{remaining_statuses, is_on, status_of, is_shutoff, assert_host_empty}
use irnmn.PowerOps.Servers.Waited.{LastListing, IsShutoff, all-IsShutoff}

module _ {W : Type 0} (cloud : Cloud W) (host : String) where
  abbrev pub IsSafe : Bool → List Server → Type 0
  IsSafe allow_shutoff here = (here ≡ []) ⊎ ((allow_shutoff ≡ true) × All IsShutoff here)

  IsSafe_lem :
      (allow_shutoff : Bool) (here : List Server)
      → (not (is_empty here) && not (allow_shutoff && all is_shutoff (map status_of here))) ≡ false
      → IsSafe allow_shutoff here
  IsSafe_lem allow_shutoff [] h = inl refl
  IsSafe_lem allow_shutoff (x ∷ here) h =
      inr (ground arith, all-IsShutoff (x ∷ here) (ground arith))

  -- When `assert_host_empty` returns, its last step listed the servers, and none is on the host,
  -- or shut-off servers are allowed and every server on the host is SHUTOFF.
  assert_host_empty-Returns :
      (allow_shutoff : Bool) (w : W)
      → Returns
          (λ _ w'. LastListing cloud host (IsSafe allow_shutoff) w')
          (assert_host_empty cloud host allow_shutoff w)
  unfolding assert_host_empty
  assert_host_empty-Returns allow_shutoff w = listed (cloud.servers host w).0 refl
    where
      listed :
          (r : Result (List Server))
          → (cloud.servers host w).0 ≡ r
          → Returns
              (λ _ w'. LastListing cloud host (IsSafe allow_shutoff) w')
              (continue
                (continue r (λ found. pure (select (is_on host) found)) (cloud.servers host w).1).0
                (λ found.
                  raise_if
                    (not (is_empty found)
                      && not (allow_shutoff && all is_shutoff (map status_of found)))
                    (host_not_empty ("host " & host & " is not safe for power off"))
                  >> pure (remaining_statuses host (map status_of found)))
                (continue r (λ found. pure (select (is_on host) found)) (cloud.servers host w).1).1)
      listed (err e) seen = tt
      listed (ok found) seen =
          Returns-raise_if _ _
            (not (is_empty (select (is_on host) found))
              && not (allow_shutoff && all is_shutoff (map status_of (select (is_on host) found))))
            _ (cloud.servers host w).1
            λ safe. (
              w,
              found,
              λ i. (seen i, (cloud.servers host w).1),
              IsSafe_lem allow_shutoff (select (is_on host) found) safe,
            )
