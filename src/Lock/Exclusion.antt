-- ===== src/Lock/Exclusion.antt =====
-- Mutual exclusion over any interleaving: while its key does not expire, a held lock stays with its
-- owner whatever the other owners do, and nobody else acquires it.
use irnmn.Prelude.{
  String, ◌≡◌, ap, ◌∙◌, Option-cases, eq_refl, ◌≢◌, true, false, List, [], ◌∷◌, All, some, inl, inr,
  eq_iff, arith,
}
use irnmn.Lock.RedisServer.{Redis, RedisLaws}
use irnmn.Lock.{HostLock, acquire, refresh, release}
use irnmn.Lock.Owned.{
  acquire_free, acquire_held, owner_succeeds, get-acquire, get-refresh, get-release,
}

-- The steps of the system: a call on a lock object of any executor, or the expiry of a key.
pub data Event : Type 0 where
  acquires refreshes releases : HostLock → Event
  expires : String → Event

module _ {W : Type 0} (redis : Redis W) where
  pub step : Event → W → W
  step (acquires l) w = (acquire redis l w).1
  step (refreshes l) w = (refresh redis l w).1
  step (releases l) w = (release redis l w).1
  step (expires k) w = redis.expire k w

  pub run : List Event → W → W
  run [] w = w
  run (e ∷ es) w = run es (step e w)

  -- The owner of the lock does not release it, and its key does not expire. Everything else may
  -- happen: the owner may acquire and refresh, others may try all three, also on other keys.
  abbrev pub Spares : HostLock → Event → Type 0
  Spares lock (acquires l) = Unit
  Spares lock (refreshes l) = Unit
  Spares lock (releases l) = (l.key ≡ lock.key) → l.owner ≢ lock.owner
  Spares lock (expires k) = k ≢ lock.key

  abbrev pub Holds : HostLock → W → Type 0
  Holds lock w = redis.get lock.key w ≡ some lock.owner

  module _ (laws : RedisLaws redis) where
    step-Holds :
        (lock : HostLock) (e : Event) (w : W) → Spares lock e → Holds lock w → Holds lock (step e w)
    unfolding step
    step-Holds lock (acquires l) w spares h = get-acquire redis laws l w lock.key lock.owner h
    step-Holds lock (refreshes l) w spares h = get-refresh redis laws l w lock.key ∙ h
    step-Holds lock (releases l) w spares h =
        get-release redis laws l w lock.key lock.owner h spares
    step-Holds lock (expires k) w spares h = rw laws.get-expire (ground (arith, eq_iff k lock.key))

    run-Holds :
        (lock : HostLock) (es : List Event) (w : W)
        → All (Spares lock) es
        → Holds lock w
        → Holds lock (run es w)
    unfolding run
    run-Holds lock [] w spare h = h
    run-Holds lock (e ∷ es) w spare h =
        run-Holds lock es (step e w) spare.1 (step-Holds lock e w spare.0 h)

    acquired-Holds :
        (lock : HostLock) (w : W)
        → (acquire redis lock w).0 ≡ true
        → Holds lock (acquire redis lock w).1
    acquired-Holds lock w done = elim (Option-cases (redis.get lock.key w)) [
      | inl free ↦ rw ((acquire_free redis laws lock w free).1 lock.key, eq_refl)
      | inr (u, held) ↦ cc (ap (λ x. x.0) (acquire_held redis laws lock w u held))
    ]

    -- After a successful acquire, whatever else happens, in any order, as long as the owner itself
    -- does not release the lock and its key does not expire: the owner still holds the lock, every
    -- acquire of the same key fails and changes nothing, and the owner's own refresh succeeds.
    pub acquired_excludes :
        (lock : HostLock) (es : List Event) (w : W)
        → (acquire redis lock w).0 ≡ true
        → All (Spares lock) es
        → let w' = run es (acquire redis lock w).1 in
          Holds lock w'
          × ((rival : HostLock) → rival.key ≡ lock.key → acquire redis rival w' ≡ (false, w'))
          × ((refresh redis lock w').0 ≡ true)
    acquired_excludes lock es w done spare =
        let w' = run es (acquire redis lock w).1 in
        let h = run-Holds lock es (acquire redis lock w).1 spare (acquired-Holds lock w done) in
        (
          h,
          λ rival same.
              acquire_held redis laws rival w' lock.owner (ap (λ k. redis.get k w') same ∙ h),
          (owner_succeeds redis laws lock w' h).0,
        )
