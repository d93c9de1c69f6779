-- ===== src/Lock/RedisServer.antt =====
-- The Redis commands that the locks use, and what the documentation of Redis says of them. Keys
-- expire between the commands, not during them: an expiry is an event of its own.
use irnmn.Prelude.{ℕ, String, ◌≡◌, Bool, true, false, Option, none, some, ◌==◌, if◌then◌else◌}

pub record Redis (W : Type 0) : Type 0 where
  -- `GET key`
  pub get : String → W → Option String
  -- `SET key value NX PX ttl`: whether the key was set
  pub set_nx_px : String → String → ℕ → W → Bool × W
  -- `PEXPIRE key ttl` and `DEL key`: how many keys were touched
  pub pexpire : String → ℕ → W → ℕ × W
  pub del : String → W → ℕ × W
  -- A key's time to live runs out.
  pub expire : String → W → W

abbrev pub count_of : Option String → ℕ
count_of none = 0
count_of (some v) = 1

pub record RedisLaws {W : Type 0} (redis : Redis W) : Type 0 where
  pub set_absent :
      (k v : String) (ttl : ℕ) (w : W) → redis.get k w ≡ none → (redis.set_nx_px k v ttl w).0 ≡ true
  pub get-set_absent :
      (k v : String) (ttl : ℕ) (w : W) (j : String)
      → redis.get k w ≡ none
      → redis.get j (redis.set_nx_px k v ttl w).1 ≡ (if k == j then some v else redis.get j w)
  pub set_present :
      (k v : String) (ttl : ℕ) (w : W) (u : String)
      → redis.get k w ≡ some u
      → redis.set_nx_px k v ttl w ≡ (false, w)
  pub pexpire_reply :
      (k : String) (ttl : ℕ) (w : W) → (redis.pexpire k ttl w).0 ≡ count_of (redis.get k w)
  pub get-pexpire :
      (k : String) (ttl : ℕ) (w : W) (j : String)
      → redis.get j (redis.pexpire k ttl w).1 ≡ redis.get j w
  pub del_reply : (k : String) (w : W) → (redis.del k w).0 ≡ count_of (redis.get k w)
  pub get-del :
      (k : String) (w : W) (j : String)
      → redis.get j (redis.del k w).1 ≡ (if k == j then none else redis.get j w)
  pub get-expire :
      (k : String) (w : W) (j : String)
      → redis.get j (redis.expire k w) ≡ (if k == j then none else redis.get j w)
