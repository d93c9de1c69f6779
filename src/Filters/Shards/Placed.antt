-- ===== src/Filters/Shards/Placed.antt =====
-- Each shard has the hosts of its id, and together they have one host for each host name.
use mathlib.Core.Path.{subst}
use irnmn.Prelude.{
  ◌==◌, ap, sym, refl, ◌∙◌, eq_iff, select, if◌then◌else◌, false, ◌&◌, ◌+◌, suc, String, ◌≡◌, Bool,
  true, List, [], ◌∷◌, ◌++◌, length, Option, none, some, Bool-cases, inl, inr, arith,
}
use irnmn.Values.{Value, null, text, boolean, to_text}
use irnmn.Effect.{Result, ok, err}
use irnmn.Effect.Post.{Gives, Gives-map}
use irnmn.Filters.Services.Selected.{append_assoc, append_nil}
use irnmn.Filters.Shards.{
  HostVars, User, ShardsInfo, has_shard, append_host, need, opened, after, shard_users, place_host,
  place, shards_from, database_shards_info,
}
use irnmn.Filters.Shards.Hosts.{
  count_hosts, count-append, count-append_host, hosts_of, is_id, is_in_shard, has-hosts_of,
  other-hosts_of, hosts_of-append_host, other-append_host, lacks-hosts_of,
}

-- The host is added to the shards for whose ids the test holds, and to nothing else.
abbrev pub IsAdded : (String → Bool) → String → ShardsInfo → ShardsInfo → Type 0
IsAdded is_its hostname info out =
    (count_hosts out.shards ≡ suc (count_hosts info.shards))
    × ((q : String)
        → hosts_of q out.shards
          ≡ hosts_of q info.shards ++ (if is_its q then hostname ∷ [] else []))

known-IsAdded :
    (info : ShardsInfo) (id hostname : String)
    → has_shard id info.shards ≡ true
    → IsAdded
        (λ q. id == q)
        hostname
        info
        (record { shards = append_host id hostname info.shards; users = info.users })
known-IsAdded info id hostname has = (count-append_host id hostname info.shards has, added)
  where
    added :
        (q : String)
        → hosts_of q (append_host id hostname info.shards)
          ≡ hosts_of q info.shards ++ (if id == q then hostname ∷ [] else [])
    added q = elim (Bool-cases (id == q)) [
      | inl same ↦ rw same (
          subst
            (λ k.
              hosts_of k (append_host id hostname info.shards)
              ≡ hosts_of k info.shards ++ (hostname ∷ []))
            ((eq_iff id q).0 same) (hosts_of-append_host id hostname info.shards has))
      | inr other ↦ rw other (
          other-append_host q id hostname info.shards other
          ∙ sym (append_nil (hosts_of q info.shards)))
    ]

opened-Gives :
    (info : ShardsInfo) (id hostname : String) (r : Result (List User))
    → has_shard id info.shards ≡ false
    → Gives (IsAdded (λ q. id == q) hostname info) (opened info id hostname r)
opened-Gives info id hostname (err e) lacks = tt
opened-Gives info id hostname (ok users) lacks =
    (omega (arith, count-append info.shards ((id, hostname ∷ []) ∷ [])), added)
  where
    same_shard :
        hosts_of id (info.shards ++ ((id, hostname ∷ []) ∷ []))
        ≡ hosts_of id info.shards ++ (hostname ∷ [])
    same_shard =
        rw
          (
            has-hosts_of id info.shards ((id, hostname ∷ []) ∷ []) lacks,
            lacks-hosts_of id info.shards lacks,
          )
          (ground (arith, (eq_iff id id).1 refl))

    added :
        (q : String)
        → hosts_of q (info.shards ++ ((id, hostname ∷ []) ∷ []))
          ≡ hosts_of q info.shards ++ (if id == q then hostname ∷ [] else [])
    added q = elim (Bool-cases (id == q)) [
      | inl same ↦ rw same (
          subst
            (λ k.
              hosts_of k (info.shards ++ ((id, hostname ∷ []) ∷ []))
              ≡ hosts_of k info.shards ++ (hostname ∷ []))
            ((eq_iff id q).0 same) same_shard)
      | inr other ↦ rw other (
          other-hosts_of q id hostname info.shards other
          ∙ sym (append_nil (hosts_of q info.shards)))
    ]

after-Gives :
    (P Q : ShardsInfo → Type 0) (r : Result ShardsInfo) (f : ShardsInfo → Result ShardsInfo)
    → Gives P r
    → ((info : ShardsInfo) → P info → Gives Q (f info))
    → Gives Q (after r f)
after-Gives P Q (ok info) f here later = later info here
after-Gives P Q (err e) f here later = tt

-- One more list of hosts, for a host of the hostnames.
next_hosts :
    (yes : Bool) (hostname : String) (now out found later : List String)
    → now ≡ found ++ (if yes then hostname ∷ [] else [])
    → out ≡ now ++ later
    → out ≡ found ++ (if yes then hostname ∷ later else later)
next_hosts true hostname now out found later here rest =
    rest ∙ (ap (λ l. l ++ later) here ∙ append_assoc found (hostname ∷ []) later)
next_hosts false hostname now out found later here rest =
    rest ∙ ap (λ l. l ++ later) (here ∙ append_nil found)

module _ (call_bool_filter : Value → Result Bool) (hostvars : String → Option HostVars) where
  place_host-Gives :
      (info : ShardsInfo) (hostname : String) (host : HostVars) (id : String)
      → Gives
          (IsAdded (λ q. id == q) hostname info)
          (place_host call_bool_filter info hostname host id)
  unfolding place_host
  place_host-Gives info hostname host id = elim (Bool-cases (has_shard id info.shards)) [
    | inl has ↦ rw has (known-IsAdded info id hostname has)
    | inr lacks ↦
        rw lacks (opened-Gives info id hostname (shard_users call_bool_filter id host) lacks)
  ]

  place-Gives :
      (info : ShardsInfo) (hostname : String) (found : Option HostVars)
      → Gives
          (IsAdded (λ q. is_in_shard q found) hostname info)
          (place call_bool_filter info hostname found)
  place-Gives info hostname none = tt
  place-Gives info hostname (some host) = go host.mariadb_shard_id
    where
      go :
          (id : Value)
          → Gives (IsAdded (λ q. is_id q id) hostname info) (
              need id
                ("'mariadb_shard_id' is undefined for host '" & hostname & "'")
                (λ id. place_host call_bool_filter info hostname host (to_text id)))
      go null = tt
      go (text s) = place_host-Gives info hostname host s
      go (boolean true) = place_host-Gives info hostname host "True"
      go (boolean false) = place_host-Gives info hostname host "False"

  from-Gives :
      (hostnames : List String) (info : ShardsInfo)
      → Gives
          (λ out.
            (count_hosts out.shards ≡ count_hosts info.shards + length hostnames)
            × ((q : String)
                → hosts_of q out.shards
                  ≡ hosts_of q info.shards ++ select (λ h. is_in_shard q (hostvars h)) hostnames))
          (shards_from call_bool_filter hostvars info hostnames)
  unfolding shards_from
  from-Gives [] info = (omega arith, λ q. sym (append_nil (hosts_of q info.shards)))
  from-Gives (hostname ∷ rest) info =
      after-Gives (IsAdded (λ q. is_in_shard q (hostvars hostname)) hostname info) _ _ _
        (place-Gives info hostname (hostvars hostname))
        (λ info' one.
          Gives-map _ _ (shards_from call_bool_filter hostvars info' rest)
            (λ out more. (
              omega (arith, one.0, more.0),
              λ q.
                  next_hosts (is_in_shard q (hostvars hostname)) hostname (hosts_of q info'.shards)
                    (hosts_of q out.shards) (hosts_of q info.shards)
                    (select (λ h. is_in_shard q (hostvars h)) rest) (one.1 q) (more.1 q),
            ))
            (from-Gives rest info'))

  -- Where `database_shards_info` returns, the shard of each id has just the hosts whose
  -- `mariadb_shard_id` is that id, in the order of the host names, and all shards have together one
  -- host for each host name.
  pub database_shards_info-Gives :
      (hostnames : List String)
      → Gives
          (λ out.
            (count_hosts out.shards ≡ length hostnames)
            × ((q : String)
                → hosts_of q out.shards ≡ select (λ h. is_in_shard q (hostvars h)) hostnames))
          (database_shards_info call_bool_filter hostvars hostnames)
  unfolding database_shards_info
  database_shards_info-Gives hostnames =
      Gives-map _ _
        (shards_from call_bool_filter hostvars (record { shards = []; users = [] }) hostnames)
        (λ out placed. (omega (arith, placed.0), placed.1))
        (from-Gives hostnames (record { shards = []; users = [] }))
