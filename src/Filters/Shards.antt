-- ===== src/Filters/Shards.antt =====
-- kolla_ansible/database_shards.py. Jinja's `bool` filter is a parameter.
pub mod Hosts
pub mod Placed
use irnmn.Prelude.{
  String, Bool, true, false, ◌==◌, List, [], ◌∷◌, ◌++◌, any, ◌&◌, Option, none, some, if◌then◌else◌,
}
use irnmn.Values.{Value, null, text, boolean, to_text}
use irnmn.Effect.{Result, ok, err, filter_error}

-- The variables of a host; one that is not set reads as `None`.
pub record HostVars : Type 0 where
  pub mariadb_shard_id : Value
  pub enable_mariabackup : Value
  pub database_password : Value
  pub mariadb_shard_root_user_prefix : Value
  pub mariadb_shard_backup_user_prefix : Value
  pub mariadb_backup_database_password : Value

pub record User : Type 0 where
  pub password : Value
  pub user : String
  pub shard_id : String

pub record ShardsInfo : Type 0 where
  pub shards : List (String × List String)
  pub users : List User

-- `host_shard_id in shards_info["shards"]`
abbrev pub has_shard : String → List (String × List String) → Bool
has_shard id shards = any (λ s. s.0 == id) shards

-- `shards_info["shards"][host_shard_id]["hosts"].append(hostname)`
unfoldable pub append_host :
    String → String → List (String × List String) → List (String × List String)
append_host id hostname [] = []
append_host id hostname ((i, hosts) ∷ rest) =
    if i == id
    then (i, hosts ++ (hostname ∷ [])) ∷ rest
    else (i, hosts) ∷ append_host id hostname rest

-- A variable that must be set, and what follows.
abbrev pub need : {A : Type 0} → Value → String → (Value → Result A) → Result A
need null message f = err (filter_error message)
need (text s) message f = f (text s)
need (boolean b) message f = f (boolean b)

abbrev pub when_bool : {A : Type 0} → Result Bool → (Bool → Result A) → Result A
when_bool (ok b) f = f b
when_bool (err e) f = err e

abbrev pub with_root : User → Result (List User) → Result (List User)
with_root user (ok users) = ok (user ∷ users)
with_root user (err e) = err e

abbrev pub backup_user : Bool → String → HostVars → Result (List User)
backup_user false id host = ok []
backup_user true id host =
    need host.mariadb_shard_backup_user_prefix
      "'mariadb_shard_backup_user_prefix' variable is unavailable"
      (λ prefix. ok (
        record {
          password = host.mariadb_backup_database_password;
          user = to_text prefix & id;
          shard_id = id;
        }
        ∷ []))

abbrev pub opened : ShardsInfo → String → String → Result (List User) → Result ShardsInfo
opened info id hostname (ok users) =
    ok (record { shards = info.shards ++ ((id, hostname ∷ []) ∷ []); users = info.users ++ users })
opened info id hostname (err e) = err e

abbrev pub after : Result ShardsInfo → (ShardsInfo → Result ShardsInfo) → Result ShardsInfo
after (ok info) f = f info
after (err e) f = err e

module _ (call_bool_filter : Value → Result Bool) where
  -- The users of a shard that is met for the first time.
  unfoldable pub shard_users : String → HostVars → Result (List User)
  shard_users id host =
      need host.enable_mariabackup "'enable_mariabackup' variable is unavailable" (λ enabled.
        when_bool (call_bool_filter enabled) (λ backup_enabled.
          need host.database_password "'database_password' variable is unavailable" (λ password.
            need host.mariadb_shard_root_user_prefix
              "'mariadb_shard_root_user_prefix' variable is unavailable"
              (λ prefix.
                with_root
                  (record { password = password; user = to_text prefix & id; shard_id = id })
                  (backup_user backup_enabled id host)))))

  -- One host of the loop, in its shard.
  unfoldable pub place_host : ShardsInfo → String → HostVars → String → Result ShardsInfo
  unfolding append_host shard_users
  place_host info hostname host id =
      if has_shard id info.shards
      then ok (record { shards = append_host id hostname info.shards; users = info.users })
      else opened info id hostname (shard_users id host)

  abbrev pub place : ShardsInfo → String → Option HostVars → Result ShardsInfo
  place info hostname none = err (filter_error ("'" & hostname & "' not in 'hostvars'"))
  place info hostname (some host) =
      need host.mariadb_shard_id ("'mariadb_shard_id' is undefined for host '" & hostname & "'")
        (λ id. place_host info hostname host (to_text id))

  -- The loop over the hosts; `hostvars` are given by their lookup.
  unfoldable pub shards_from :
      (String → Option HostVars) → ShardsInfo → List String → Result ShardsInfo
  unfolding place_host
  shards_from hostvars info [] = ok info
  shards_from hostvars info (hostname ∷ rest) =
      after (place info hostname (hostvars hostname)) (λ info. shards_from hostvars info rest)

  unfoldable pub database_shards_info : (String → Option HostVars) → List String → Result ShardsInfo
  unfolding shards_from
  database_shards_info hostvars hostnames =
      shards_from hostvars (record { shards = []; users = [] }) hostnames
