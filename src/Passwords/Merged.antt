-- ===== src/Passwords/Merged.antt =====
-- The value that a merge of passwords gives to each key.
use mathlib.Core.Path.{subst}
use irnmn.Prelude.{
  ap, sym, String, ◌≡◌, refl, Bool, true, false, not, ◌&&◌, ◌||◌, ◌==◌, eq_iff, eq_refl, Bool-cases,
  Option-cases, inl, inr, [], ◌∷◌, ◌∙◌, Option, none, some, arith, if◌then◌else◌,
}
use irnmn.Passwords.{Secret, Passwords, find_secret, put_secret, is_set}
use irnmn.Passwords.Merge.{
  is_there, value_or, valkey_key, redis_key, put_if_set, migrate_valkey, keep_new, update_all,
  merge_passwords,
}

abbrev pub has_key : String → Passwords → Bool
has_key key [] = false
has_key key ((k, v) ∷ rest) = k == key || has_key key rest

-- The keys of a mapping differ.
abbrev pub IsMapping : Passwords → Type 0
IsMapping [] = Unit
IsMapping ((k, v) ∷ rest) = (has_key k rest ≡ false) × IsMapping rest

abbrev pub first_of : Option Secret → Option Secret → Option Secret
first_of none later = later
first_of (some v) later = some v

-- The new value, or that of Redis for a new password of Valkey.
abbrev pub from_redis : Option Secret → Option Secret → Option Secret
from_redis none redis = none
from_redis (some v) none = some v
from_redis (some v) (some r) = some (if is_set r then r else v)

abbrev pub new_value : String → Passwords → Passwords → Option Secret
new_value key old new =
    if key == valkey_key
    then from_redis (find_secret key new) (find_secret redis_key old)
    else find_secret key new

-- The value of a key after a merge: an old value first; a clean merge drops the keys that the new
-- file does not have.
abbrev pub merged_value : Bool → String → Passwords → Passwords → Option Secret
merged_value clean key old new =
    if clean && not (is_there (find_secret key new))
    then none
    else first_of (find_secret key old) (new_value key old new)

find-put :
    (k j : String) (v : Secret) (d : Passwords)
    → find_secret j (put_secret k v d) ≡ (if k == j then some v else find_secret j d)
unfolding find_secret put_secret
find-put k j v [] = refl
find-put k j v ((i, u) ∷ d) = ground (arith, eq_iff k j, eq_iff i k, eq_iff i j, find-put k j v d)

find_absent : (k : String) (d : Passwords) → has_key k d ≡ false → find_secret k d ≡ none
unfolding find_secret
find_absent k [] absent = refl
find_absent k ((j, v) ∷ d) absent = ground (arith, absent, find_absent k d)

abbrev keep_value : Option Secret → Option Secret → Option Secret
keep_value none old = none
keep_value (some u) old = some (value_or u old)

find-keep_new :
    (k : String) (old new : Passwords)
    → find_secret k (keep_new old new) ≡ keep_value (find_secret k new) (find_secret k old)
unfolding find_secret keep_new
find-keep_new k old [] = refl
find-keep_new k old ((j, u) ∷ new) = elim (Bool-cases (j == k)) [
  | inl same ↦ rw same (ap (λ i. some (value_or u (find_secret i old))) ((eq_iff j k).0 same))
  | inr other ↦ rw other (find-keep_new k old new)
]

find-update_all :
    (k : String) (new old : Passwords)
    → IsMapping old
    → find_secret k (update_all new old) ≡ first_of (find_secret k old) (find_secret k new)
unfolding find_secret update_all
find-update_all k new [] distinct = refl
find-update_all k new ((j, v) ∷ old) (absent, distinct) = elim (Bool-cases (j == k)) [
  | inl same ↦
      let gone : find_secret k old ≡ none =
        subst (λ i. find_secret i old ≡ none) ((eq_iff j k).0 same) (find_absent j old absent) in
      ground
        (arith, find-update_all k (put_secret j v new) old distinct, gone, find-put j k v new, same)
  | inr other ↦
      ground (arith, find-update_all k (put_secret j v new) old distinct, find-put j k v new, other)
]

-- Another key than that of the migration.
put_other :
    (k : String) (redis : Option Secret) (new : Passwords)
    → k == valkey_key ≡ false
    → find_secret k (put_if_set valkey_key redis new) ≡ find_secret k new
put_other k none new other = refl
put_other k (some r) new other =
    ground (arith, find-put valkey_key k r new, eq_iff valkey_key k, eq_iff k valkey_key, other)

migrate_other :
    (k : String) (old new : Passwords)
    → k == valkey_key ≡ false
    → find_secret k (migrate_valkey old new) ≡ find_secret k new
unfolding migrate_valkey
migrate_other k old new other =
    go (is_there (find_secret valkey_key new) && not (is_there (find_secret valkey_key old)))
  where
    go :
        (test : Bool)
        → find_secret k
            (if test then put_if_set valkey_key (find_secret redis_key old) new else new)
          ≡ find_secret k new
    go true = put_other k (find_secret redis_key old) new other
    go false = refl

put_valkey :
    (redis : Option Secret) (new : Passwords) (v : Secret)
    → find_secret valkey_key new ≡ some v
    → find_secret valkey_key (put_if_set valkey_key redis new) ≡ from_redis (some v) redis
put_valkey none new v there = there
put_valkey (some r) new v there =
    ground (arith, find-put valkey_key valkey_key r new, eq_refl valkey_key, there)

migrate_key :
    (old new : Passwords)
    → find_secret valkey_key old ≡ none
    → find_secret valkey_key (migrate_valkey old new)
      ≡ from_redis (find_secret valkey_key new) (find_secret redis_key old)
unfolding migrate_valkey
migrate_key old new absent = elim (Option-cases (find_secret valkey_key new)) [
  | inl missing ↦ rw (absent, missing) missing
  | inr (v, there) ↦ rw (absent, there) (put_valkey (find_secret redis_key old) new v there)
]

find-migrate :
    (k : String) (old new : Passwords)
    → first_of (find_secret k old) (find_secret k (migrate_valkey old new))
      ≡ first_of (find_secret k old) (new_value k old new)
unfolding migrate_valkey
find-migrate k old new = elim (Option-cases (find_secret k old)) [
  | inr (v, there) ↦ rw there refl
  | inl absent ↦ rw absent (elim (Bool-cases (k == valkey_key)) [
    | inl same ↦ rw same (
        subst
          (λ i.
            find_secret i old ≡ none
            → find_secret i (migrate_valkey old new)
              ≡ from_redis (find_secret i new) (find_secret redis_key old))
          (sym ((eq_iff k valkey_key).0 same)) (migrate_key old new) absent)
    | inr other ↦ rw other (migrate_other k old new other)
  ])
]

from_redis_there : (new redis : Option Secret) → is_there (from_redis new redis) ≡ is_there new
from_redis_there none redis = refl
from_redis_there (some v) none = refl
from_redis_there (some v) (some r) = refl

migrate_none :
    (old new : Passwords) (v : Secret)
    → find_secret valkey_key old ≡ some v
    → migrate_valkey old new ≡ new
unfolding migrate_valkey
migrate_none old new v there = rw there (go (is_there (find_secret valkey_key new)))
  where
    go :
        (test : Bool)
        → (if test && false then put_if_set valkey_key (find_secret redis_key old) new else new)
          ≡ new
    go true = refl
    go false = refl

valkey_there :
    (old new : Passwords)
    → is_there (find_secret valkey_key (migrate_valkey old new))
      ≡ is_there (find_secret valkey_key new)
valkey_there old new = elim (Option-cases (find_secret valkey_key old)) [
  | inl absent ↦ ap is_there (migrate_key old new absent) ∙ from_redis_there _ _
  | inr (v, there) ↦ ap (λ m. is_there (find_secret valkey_key m)) (migrate_none old new v there)
]

-- The migration adds no key.
migrate_there :
    (k : String) (old new : Passwords)
    → is_there (find_secret k (migrate_valkey old new)) ≡ is_there (find_secret k new)
migrate_there k old new = elim (Bool-cases (k == valkey_key)) [
  | inl same ↦
      subst (λ i. is_there (find_secret i (migrate_valkey old new)) ≡ is_there (find_secret i new))
        (sym ((eq_iff k valkey_key).0 same)) (valkey_there old new)
  | inr other ↦ ap is_there (migrate_other k old new other)
]

-- What a clean merge keeps of a key, by the values of both files and of the migrated one.
keep_merged :
    (found new old value : Option Secret)
    → is_there found ≡ is_there new
    → first_of old found ≡ first_of old value
    → keep_value found old ≡ (if not (is_there new) then none else first_of old value)
keep_merged none none old value there same = refl
keep_merged none (some u) old value there same = absurd (ground (arith, there))
keep_merged (some m) none old value there same = absurd (ground (arith, there))
keep_merged (some m) (some u) none value there same = same
keep_merged (some m) (some u) (some v) value there same = refl

pub merge_passwords-value :
    (clean : Bool) (old new : Passwords) (key : String)
    → IsMapping old
    → find_secret key (merge_passwords clean old new) ≡ merged_value clean key old new
unfolding merge_passwords
merge_passwords-value false old new key distinct =
    find-update_all key (migrate_valkey old new) old distinct ∙ find-migrate key old new
merge_passwords-value true old new key distinct =
    find-keep_new key old (migrate_valkey old new)
    ∙ keep_merged _ _ _ (new_value key old new) (migrate_there key old new)
        (find-migrate key old new)
