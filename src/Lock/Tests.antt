-- ===== src/Lock/Tests.antt =====
-- A Redis that is a map of keys without time, its laws, and the lock theorems on it.
use irnmn.Prelude.{
  String, ◌≡◌, refl, Bool, true, false, List, [], ◌∷◌, Option, none, some, ◌==◌, eq_iff,
  if◌then◌else◌, arith,
}
use irnmn.Effect.{ok}
use irnmn.PowerOps.Duration.{pos}
use irnmn.Lock.RedisServer.{Redis, RedisLaws, count_of}
use irnmn.Lock.{HostLock, make_lock, acquire, refresh, release}
use irnmn.Lock.Owned.{acquire_held, not_owner_changes_nothing, owner_succeeds}
use irnmn.Lock.Exclusion.{
  Event, acquires, refreshes, releases, expires, run, Holds, acquired_excludes,
}

abbrev Keys : Type 0
Keys = String → Option String

abbrev without : String → Keys → Keys
without k w j = if k == j then none else w j

abbrev put_absent : String → String → Keys → Option String → Bool × Keys
put_absent k v w none = (true, λ j. if k == j then some v else w j)
put_absent k v w (some u) = (false, w)

abbrev timeless : Redis Keys
timeless = record {
  get = λ k w. w k;
  set_nx_px = λ k v ttl w. put_absent k v w (w k);
  pexpire = λ k ttl w. (count_of (w k), w);
  del = λ k w. (count_of (w k), without k w);
  expire = without;
}

timeless-RedisLaws : RedisLaws timeless
timeless-RedisLaws = record {
  set_absent = λ k v ttl w free. rw free;
  get-set_absent = λ k v ttl w j free. rw free;
  set_present = λ k v ttl w u held. rw held;
  pexpire_reply = λ k ttl w. refl;
  get-pexpire = λ k ttl w j. refl;
  del_reply = λ k w. refl;
  get-del = λ k w j. refl;
  get-expire = λ k w j. refl;
}

abbrev lock_of : String → String → HostLock
lock_of host owner = record { key = host; ttl_ms = 900000; owner = owner }

abbrev no_keys : Keys
no_keys k = none

abbrev held : Keys
held k = if "h1" == k then some "w1" else none

acquire_held_example : acquire timeless (lock_of "h1" "w2") held ≡ (false, held)
acquire_held_example = acquire_held timeless timeless-RedisLaws (lock_of "h1" "w2") held "w1" refl

not_owner_changes_nothing_example :
    (refresh timeless (lock_of "h1" "w2") held ≡ (false, held))
    × (release timeless (lock_of "h1" "w2") held ≡ (false, held))
not_owner_changes_nothing_example =
    not_owner_changes_nothing timeless timeless-RedisLaws (lock_of "h1" "w2") held
      (λ e. ground (arith, eq_iff "w1" "w2"))

owner_succeeds_example :
    let lock = lock_of "h1" "w1" in
    ((refresh timeless lock held).0 ≡ true)
    × ((j : String) → (refresh timeless lock held).1 j ≡ held j)
    × ((release timeless lock held).0 ≡ true)
    × ((j : String) → (release timeless lock held).1 j ≡ (if "h1" == j then none else held j))
owner_succeeds_example = owner_succeeds timeless timeless-RedisLaws (lock_of "h1" "w1") held refl

-- A rival tries to acquire, to refresh and to release; another host's key expires.
abbrev rivals : List Event
rivals =
    acquires (lock_of "h1" "w2")
    ∷ refreshes (lock_of "h1" "w2")
    ∷ releases (lock_of "h1" "w2")
    ∷ refreshes (lock_of "h1" "w1")
    ∷ expires "h2"
    ∷ []

acquired_excludes_example :
    let lock = lock_of "h1" "w1" in
    let w' = run timeless rivals (acquire timeless lock no_keys).1 in
    Holds timeless lock w'
    × ((rival : HostLock) → rival.key ≡ "h1" → acquire timeless rival w' ≡ (false, w'))
    × ((refresh timeless lock w').0 ≡ true)
unfolding acquire
acquired_excludes_example =
    acquired_excludes timeless timeless-RedisLaws (lock_of "h1" "w1") rivals no_keys refl (
      tt,
      (
        tt,
        (
          λ same e. ground (arith, eq_iff "w2" "w1"),
          (tt, (λ e. ground (arith, eq_iff "h2" "h1"), tt)),
        ),
      ),
    )

make_lock_run : make_lock "c1" (pos 900) "w1" ≡ ok (lock_of "powerops:host:c1" "w1")
unfolding make_lock
make_lock_run = refl
