-- ===== src/PowerOps/Servers/Drained.antt =====
-- `drain_host` of operations.py returns only on the evidence of its last listing of the servers.
use irnmn.Prelude.{
  String, ◌≡◌, refl, true, not, ◌||◌, ◌==◌, List, [], ◌∷◌, select, is_empty, All, if◌then◌else◌,
  ◌&◌, arith, Bool-cases, inl, inr,
}
use irnmn.Effect.{
  Result, ok, err, continue, pure, raise, host_not_empty, unsupported_instance_policy,
}
use irnmn.Effect.Post.{Returns, Returns-continue, Returns-raise_if, Returns-map}
use irnmn.PowerOps.Cloud.{Server, Cloud}
use irnmn.PowerOps.Duration.{ℤ}
use irnmn.PowerOps.Servers.{
  servers_on_source_empty, is_on, is_instance_policy, for_each, drain_with, drain_host,
}
use irnmn.PowerOps.Servers.Waited.{
  LastListing, IsShutoff, Empty, wait_migrated-Returns, wait_stopped-Returns,
}

module _ {W : Type 0} (cloud : Cloud W) (host : String) where
  -- What each accepted policy promises of the servers last seen on the host.
  abbrev pub Drained : String → List Server → Type 0
  Drained policy here =
      if policy == "require_empty" || policy == "live_migrate"
      then Empty here
      else All IsShutoff here

  drain_with-Returns :
      (policy : String) (timeout interval : ℤ) (found : List Server) (w w' : W)
      → cloud.servers host w ≡ (ok found, w')
      → Returns
          (λ _ w''. LastListing cloud host (Drained policy) w'')
          (drain_with cloud host policy timeout interval (select (is_on host) found) w')
  unfolding drain_with
  drain_with-Returns policy timeout interval found w w' seen =
      elim (Bool-cases (policy == "require_empty")) [
        | inl e ↦ rw e (
            refuse_or_return (select (is_on host) found) (λ none_left. (w, found, seen, none_left)))
        | inr e ↦ elim (Bool-cases (policy == "live_migrate")) [
          | inl f ↦
              rw (e, f)
                (Returns-continue _ _
                  (for_each cloud cloud.live_migrate_server (select (is_on host) found) w').0
                  (for_each cloud cloud.live_migrate_server (select (is_on host) found) w').1
                  λ _ _. wait_migrated-Returns cloud host timeout interval _)
          | inr f ↦
              rw (e, f)
                (Returns-continue _ _
                  (for_each cloud cloud.stop_server (select (is_on host) found) w').0
                  (for_each cloud cloud.stop_server (select (is_on host) found) w').1
                  λ _ _. wait_stopped-Returns cloud host timeout interval _)
        ]
      ]
    where
      refuse_or_return :
          (here : List Server)
          → (Empty here → LastListing cloud host Empty w')
          → Returns
              (λ _ w''. LastListing cloud host Empty w'')
              ((if is_empty here
                  then pure (servers_on_source_empty host)
                  else raise (host_not_empty ("host " & host & " still has servers")))
                w')
      refuse_or_return [] give = give refl
      refuse_or_return (x ∷ here) give = tt

  drain_listed :
      (policy : String) (timeout interval : ℤ) (r : Result (List Server)) (w w' : W)
      → cloud.servers host w ≡ (r, w')
      → Returns
          (λ _ w''. LastListing cloud host (Drained policy) w'')
          (continue
            (continue r (λ found. pure (select (is_on host) found)) w').0
            (drain_with cloud host policy timeout interval)
            (continue r (λ found. pure (select (is_on host) found)) w').1)
  drain_listed policy timeout interval (err e) w w' seen = tt
  drain_listed policy timeout interval (ok found) w w' seen =
      drain_with-Returns policy timeout interval found w w' seen

  -- When `drain_host` returns, its last step listed the servers. Under `require_empty` and
  -- `live_migrate` none of them is on the host; under `stop`, the only other policy that is
  -- accepted, every one on the host is SHUTOFF.
  pub drain_host-Returns :
      (policy : String) (timeout interval : ℤ) (w : W)
      → Returns
          (λ _ w'. (is_instance_policy policy ≡ true) × LastListing cloud host (Drained policy) w')
          (drain_host cloud host policy timeout interval w)
  unfolding drain_host
  drain_host-Returns policy timeout interval w =
      Returns-raise_if _ _ (not (is_instance_policy policy))
        (unsupported_instance_policy ("unsupported instance policy: " & policy)) w
        λ known.
          let (r, w') = cloud.servers host w in
          Returns-map (λ _ w''. LastListing cloud host (Drained policy) w'') _ _
            (λ _ w'' seen. (ground arith, seen)) (drain_listed policy timeout interval r w w' refl)
