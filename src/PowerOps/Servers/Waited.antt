-- ===== src/PowerOps/Servers/Waited.antt =====
-- The waits of `drain_host` return only on the evidence of their last listing of the servers.
use irnmn.Prelude.{
  String, ◌≡◌, refl, true, eq_iff, List, [], ◌∷◌, map, select, any, all, is_empty, All,
  if◌then◌else◌, arith, Bool-cases, inl, inr,
}
use irnmn.Attr.{Attr, missing, null, text, get_attr}
use irnmn.Effect.{Result, ok, err, Exec, continue, pure, raise, host_not_empty, ◌>>=◌}
use irnmn.Effect.Post.{Returns, Returns-continue}
use irnmn.Effect.Polling.{done, again, RoundKeeps, poll-Returns}
use irnmn.PowerOps.Cloud.{Server, Cloud}
use irnmn.PowerOps.Duration.{ℤ, attempts}
use irnmn.PowerOps.Servers.{
  DrainReply, servers_on_source_empty, remaining_statuses, is_on, status_of, is_shutoff, is_error,
  servers_on_host, migration_round, stop_round, wait_migrated, wait_stopped,
}

-- The call's last step listed the host's servers, and those on the host are as `P` says.
abbrev pub LastListing : {W : Type 0} → Cloud W → String → (List Server → Type 0) → W → Type 0
LastListing {W} cloud host P w' =
    (w : W) × (found : List Server) × (cloud.servers host w ≡ (ok found, w'))
    × P (select (is_on host) found)

abbrev pub IsShutoff : Server → Type 0
IsShutoff server = server.status ≡ text "SHUTOFF"

abbrev pub Empty : List Server → Type 0
Empty here = here ≡ []

shutoff_status : (a : Attr) → is_shutoff (get_attr a (text "UNKNOWN")) ≡ true → a ≡ text "SHUTOFF"
shutoff_status missing h = cc
shutoff_status null h = cc
shutoff_status (text s) h = ground (arith, eq_iff s "SHUTOFF")

pub all-IsShutoff :
    (here : List Server) → all is_shutoff (map status_of here) ≡ true → All IsShutoff here
all-IsShutoff [] h = tt
all-IsShutoff (server ∷ rest) h = ground (arith, shutoff_status server.status, all-IsShutoff rest)

module _ {W : Type 0} (cloud : Cloud W) (host : String) where
  -- A step on the servers that a listing finds on the host.
  abbrev on_listing : {B : Type 0} → (List Server → Exec W B) → Exec W B
  on_listing f = servers_on_host cloud host >>= f

  migration_decides :
      (X : W → Type 0) (here : List Server) (w : W)
      → (Empty here → X w)
      → RoundKeeps
          (λ _ _. Unit {0})
          (λ (_ : DrainReply) w'. X w')
          ((if is_empty here
              then pure (done (servers_on_source_empty host))
              else if any (λ item. is_error (get_attr item.status null)) here
              then raise (host_not_empty "server migration entered ERROR")
              else pure (again tt))
            w)
  migration_decides X [] w give = give refl
  migration_decides X (x ∷ here) w give =
      elim (Bool-cases (any (λ item. is_error (get_attr item.status null)) (x ∷ here))) [
        | inl e ↦ rw e tt
        | inr e ↦ rw e tt
      ]

  stop_decides :
      (X : W → Type 0) (here : List Server) (w : W)
      → (All IsShutoff here → X w)
      → RoundKeeps
          (λ _ _. Unit {0})
          (λ (_ : DrainReply) w'. X w')
          ((if all is_shutoff (map status_of here)
              then pure (done (remaining_statuses host (map status_of here)))
              else if any is_error (map status_of here)
              then raise (host_not_empty "server stop entered ERROR")
              else pure (again tt))
            w)
  stop_decides X here w give = elim (Bool-cases (all is_shutoff (map status_of here))) [
    | inl e ↦ rw e (give (all-IsShutoff here e))
    | inr e ↦ elim (Bool-cases (any is_error (map status_of here))) [
      | inl f ↦ rw (e, f) tt
      | inr f ↦ rw (e, f) tt
    ]
  ]

  migration_keeps :
      (r : Result (List Server)) (w w' : W)
      → cloud.servers host w ≡ (r, w')
      → RoundKeeps
          (λ _ _. Unit {0})
          (λ (_ : DrainReply) w''. LastListing cloud host Empty w'')
          (continue
            (continue r (λ found. pure (select (is_on host) found)) w').0
            (λ here.
              if is_empty here
              then pure (done (servers_on_source_empty host))
              else if any (λ item. is_error (get_attr item.status null)) here
              then raise (host_not_empty "server migration entered ERROR")
              else pure (again tt))
            (continue r (λ found. pure (select (is_on host) found)) w').1)
  migration_keeps (err e) w w' seen = tt
  migration_keeps (ok found) w w' seen =
      migration_decides (LastListing cloud host Empty) (select (is_on host) found) w'
        (λ none_left. (w, found, seen, none_left))

  stop_keeps :
      (r : Result (List Server)) (w w' : W)
      → cloud.servers host w ≡ (r, w')
      → RoundKeeps
          (λ _ _. Unit {0})
          (λ (_ : DrainReply) w''. LastListing cloud host (All IsShutoff) w'')
          (continue
            (continue r (λ found. pure (select (is_on host) found)) w').0
            (λ here.
              if all is_shutoff (map status_of here)
              then pure (done (remaining_statuses host (map status_of here)))
              else if any is_error (map status_of here)
              then raise (host_not_empty "server stop entered ERROR")
              else pure (again tt))
            (continue r (λ found. pure (select (is_on host) found)) w').1)
  stop_keeps (err e) w w' seen = tt
  stop_keeps (ok found) w w' seen =
      stop_decides (LastListing cloud host (All IsShutoff)) (select (is_on host) found) w'
        (λ stopped. (w, found, seen, stopped))

  pub wait_migrated-Returns :
      (timeout interval : ℤ) (w : W)
      → Returns
          (λ _ w'. LastListing cloud host Empty w')
          (wait_migrated cloud host timeout interval w)
  unfolding wait_migrated servers_on_host
  wait_migrated-Returns timeout interval w =
      Returns-continue _ _ (attempts timeout interval) w λ rounds _.
        poll-Returns (cloud.sleep interval) (migration_round cloud host)
          (host_not_empty "servers did not leave host before timeout") (λ _ _. Unit)
          (λ _ w'. LastListing cloud host Empty w')
          (λ s w' h. let (r, w'') = cloud.servers host w' in migration_keeps r w' w'' refl)
          (λ s w' h. tt) rounds tt w tt

  pub wait_stopped-Returns :
      (timeout interval : ℤ) (w : W)
      → Returns
          (λ _ w'. LastListing cloud host (All IsShutoff) w')
          (wait_stopped cloud host timeout interval w)
  unfolding wait_stopped servers_on_host
  wait_stopped-Returns timeout interval w =
      Returns-continue _ _ (attempts timeout interval) w λ rounds _.
        poll-Returns (cloud.sleep interval) (stop_round cloud host)
          (host_not_empty "servers did not stop before timeout") (λ _ _. Unit)
          (λ _ w'. LastListing cloud host (All IsShutoff) w')
          (λ s w' h. let (r, w'') = cloud.servers host w' in stop_keeps r w' w'' refl)
          (λ s w' h. tt) rounds tt w tt
