-- ===== src/Lock/Owned.antt =====
-- Each operation of a lock, by who holds its key.
use irnmn.Prelude.{
  String, ◌≡◌, ◌≢◌, refl, true, false, none, some, Option-cases, Bool-cases, ap, sym, inl, inr,
  ◌==◌, eq_iff, eq_refl, if◌then◌else◌, arith,
}
use mathlib.Core.Path.{subst}
use irnmn.Lock.RedisServer.{Redis, RedisLaws}
use irnmn.Lock.{HostLock, is_value, acquire, refresh, release}

module _ {W : Type 0} (redis : Redis W) (laws : RedisLaws redis) (lock : HostLock) (w : W) where
  -- A free lock is acquired: the call succeeds, the owner holds the key, and no other key changes.
  pub acquire_free :
      redis.get lock.key w ≡ none
      → ((acquire redis lock w).0 ≡ true)
        × ((j : String)
            → redis.get j (acquire redis lock w).1
              ≡ (if lock.key == j then some lock.owner else redis.get j w))
  unfolding acquire
  acquire_free free = (
    laws.set_absent lock.key lock.owner lock.ttl_ms w free,
    λ j. laws.get-set_absent lock.key lock.owner lock.ttl_ms w j free,
  )

  -- A lock that anybody holds, its own owner included, is not acquired, and nothing changes.
  pub acquire_held :
      (u : String) → redis.get lock.key w ≡ some u → acquire redis lock w ≡ (false, w)
  unfolding acquire
  acquire_held u held = laws.set_present lock.key lock.owner lock.ttl_ms w u held

  stranger_test :
      (u : String)
      → redis.get lock.key w ≢ some lock.owner
      → redis.get lock.key w ≡ some u
      → (u == lock.owner) ≡ false
  stranger_test u other e = ground (arith, eq_iff u lock.owner)

  -- Who does not hold the lock can neither refresh nor release it: both fail and change nothing.
  pub not_owner_changes_nothing :
      redis.get lock.key w ≢ some lock.owner
      → (refresh redis lock w ≡ (false, w)) × (release redis lock w ≡ (false, w))
  unfolding refresh release
  not_owner_changes_nothing other = elim (Option-cases (redis.get lock.key w)) [
    | inl e ↦ rw e (refl, refl)
    | inr (u, e) ↦ rw (e, stranger_test u other e) (refl, refl)
  ]

  -- The owner's refresh succeeds and keeps every value; the owner's release succeeds, frees the
  -- lock's key and keeps every other.
  pub owner_succeeds :
      redis.get lock.key w ≡ some lock.owner
      → ((refresh redis lock w).0 ≡ true)
        × ((j : String) → redis.get j (refresh redis lock w).1 ≡ redis.get j w)
        × ((release redis lock w).0 ≡ true)
        × ((j : String)
            → redis.get j (release redis lock w).1
              ≡ (if lock.key == j then none else redis.get j w))
  unfolding refresh release
  owner_succeeds held = (
    rw (held, eq_refl, laws.pexpire_reply, held),
    λ j. rw (held, eq_refl) (laws.get-pexpire lock.key lock.ttl_ms w j),
    rw (held, eq_refl, laws.del_reply, held),
    λ j. rw (held, eq_refl) (laws.get-del lock.key w j),
  )

-- What an operation on any lock leaves of the value of any key.
module _ {W : Type 0} (redis : Redis W) (laws : RedisLaws redis) (lock : HostLock) (w : W) where
  pub get-refresh : (j : String) → redis.get j (refresh redis lock w).1 ≡ redis.get j w
  unfolding refresh
  get-refresh j = elim (Bool-cases (is_value (redis.get lock.key w) lock.owner)) [
    | inl e ↦ rw e (laws.get-pexpire lock.key lock.ttl_ms w j)
    | inr e ↦ rw e
  ]

  pub get-acquire :
      (j u : String) → redis.get j w ≡ some u → redis.get j (acquire redis lock w).1 ≡ some u
  get-acquire j u held = elim (Option-cases (redis.get lock.key w)) [
    | inl free ↦
        rw ((acquire_free redis laws lock w free).1 j)
          (ground (arith, eq_iff lock.key j, ap (λ k. redis.get k w)))
    | inr (v, taken) ↦ rw (acquire_held redis laws lock w v taken) held
  ]

  owner_of :
      (j u : String)
      → redis.get j w ≡ some u
      → is_value (redis.get lock.key w) lock.owner ≡ true
      → lock.key ≡ j
      → lock.owner ≡ u
  owner_of j u held e p = sym (
      (eq_iff u lock.owner).0
        (rw held at (subst (λ k. is_value (redis.get k w) lock.owner ≡ true) p e)))

  pub get-release :
      (j u : String)
      → redis.get j w ≡ some u
      → (lock.key ≡ j → lock.owner ≢ u)
      → redis.get j (release redis lock w).1 ≡ some u
  unfolding release
  get-release j u held other = elim (Bool-cases (is_value (redis.get lock.key w) lock.owner)) [
    | inl e ↦
        rw (e, laws.get-del)
          (elim (Bool-cases (lock.key == j)) [
            | inl same ↦ absurd (
                other ((eq_iff lock.key j).0 same)
                  (owner_of j u held e ((eq_iff lock.key j).0 same)))
            | inr apart ↦ rw apart held
          ])
    | inr e ↦ rw e held
  ]
