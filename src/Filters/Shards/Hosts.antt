-- ===== src/Filters/Shards/Hosts.antt =====
-- The hosts that the shards list, and what one more host changes in them.
use irnmn.Prelude.{
  ◌==◌, refl, eq_iff, if◌then◌else◌, false, ℕ, ◌+◌, suc, String, ◌≡◌, Bool, true, List, [], ◌∷◌,
  ◌++◌, length, Option, none, some, Bool-cases, inl, inr, arith, length-append,
}
use irnmn.Values.{Value, null, text, boolean}
use irnmn.Filters.Shards.{HostVars, has_shard, append_host}

-- The hosts of all shards together.
abbrev pub count_hosts : List (String × List String) → ℕ
count_hosts [] = 0
count_hosts ((id, hosts) ∷ rest) = length hosts + count_hosts rest

pub count-append :
    (xs ys : List (String × List String)) → count_hosts (xs ++ ys) ≡ count_hosts xs + count_hosts ys
count-append [] ys = omega arith
count-append ((id, hosts) ∷ xs) ys = omega (arith, count-append xs ys)

pub count-append_host :
    (id hostname : String) (shards : List (String × List String))
    → has_shard id shards ≡ true
    → count_hosts (append_host id hostname shards) ≡ suc (count_hosts shards)
unfolding append_host
count-append_host id hostname [] has = absurd (ground (arith, has))
count-append_host id hostname ((i, hosts) ∷ rest) has =
    ground (arith, length-append hosts (hostname ∷ []), count-append_host id hostname rest, has)

-- The hosts of the shard with the id.
abbrev pub hosts_of : String → List (String × List String) → List String
hosts_of id [] = []
hosts_of id ((i, hosts) ∷ rest) = if i == id then hosts else hosts_of id rest

-- The variable is the id, as a text.
abbrev pub is_id : String → Value → Bool
is_id id null = false
is_id id (text s) = s == id
is_id id (boolean true) = "True" == id
is_id id (boolean false) = "False" == id

-- The host is known, and its shard has the id.
abbrev pub is_in_shard : String → Option HostVars → Bool
is_in_shard id none = false
is_in_shard id (some host) = is_id id host.mariadb_shard_id

pub has-hosts_of :
    (id : String) (shards ys : List (String × List String))
    → has_shard id shards ≡ false
    → hosts_of id (shards ++ ys) ≡ hosts_of id ys
has-hosts_of id [] ys lacks = refl
has-hosts_of id ((i, hosts) ∷ rest) ys lacks = ground (arith, has-hosts_of id rest ys, lacks)

pub other-hosts_of :
    (q id hostname : String) (shards : List (String × List String))
    → (id == q) ≡ false
    → hosts_of q (shards ++ ((id, hostname ∷ []) ∷ [])) ≡ hosts_of q shards
other-hosts_of q id hostname [] other = ground (arith, other)
other-hosts_of q id hostname ((i, hosts) ∷ rest) other =
    ground (arith, other-hosts_of q id hostname rest other)

pub hosts_of-append_host :
    (id hostname : String) (shards : List (String × List String))
    → has_shard id shards ≡ true
    → hosts_of id (append_host id hostname shards) ≡ hosts_of id shards ++ (hostname ∷ [])
unfolding append_host
hosts_of-append_host id hostname [] has = absurd (ground (arith, has))
hosts_of-append_host id hostname ((i, hosts) ∷ rest) has =
    ground (arith, hosts_of-append_host id hostname rest, has)

pub other-append_host :
    (q id hostname : String) (shards : List (String × List String))
    → (id == q) ≡ false
    → hosts_of q (append_host id hostname shards) ≡ hosts_of q shards
unfolding append_host
other-append_host q id hostname [] other = refl
other-append_host q id hostname ((i, hosts) ∷ rest) other = elim (Bool-cases (i == id)) [
  | inl same ↦ ground (arith, same, (eq_iff i id).0 same, other)
  | inr apart ↦ ground (arith, apart, other-append_host q id hostname rest other)
]

pub lacks-hosts_of :
    (id : String) (shards : List (String × List String))
    → has_shard id shards ≡ false
    → hosts_of id shards ≡ []
lacks-hosts_of id [] lacks = refl
lacks-hosts_of id ((i, hosts) ∷ rest) lacks = ground (arith, lacks-hosts_of id rest, lacks)
