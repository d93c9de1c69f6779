-- ===== src/Passwords/Merge.antt =====
-- kolla_ansible/cmd/mergepwd.py. The warnings about the modes of the files are left out.
use irnmn.Prelude.{
  ℕ, String, Bool, true, false, not, ◌&&◌, map, [], ◌∷◌, Option, none, some, if◌then◌else◌,
}
use irnmn.Effect.{Result, ok, err, Exec, lift, system_exit, external, ◌>>=◌, ◌>>◌}
use irnmn.Passwords.{
  Secret, Passwords, Loaded, mapping, other_document, PasswordFiles, find_secret, put_secret,
  is_set,
}

abbrev pub is_there : Option Secret → Bool
is_there none = false
is_there (some v) = true

abbrev pub value_or : Secret → Option Secret → Secret
value_or default none = default
value_or default (some v) = v

abbrev pub valkey_key : String
valkey_key = "valkey_master_password"

abbrev pub redis_key : String
redis_key = "redis_master_password"

abbrev pub put_if_set : String → Option Secret → Passwords → Passwords
put_if_set key none passwords = passwords
put_if_set key (some v) passwords = if is_set v then put_secret key v passwords else passwords

-- The password of Redis becomes that of Valkey, where only the new file has one.
unfoldable pub migrate_valkey : Passwords → Passwords → Passwords
unfolding find_secret put_secret
migrate_valkey old new =
    if is_there (find_secret valkey_key new) && not (is_there (find_secret valkey_key old))
    then put_if_set valkey_key (find_secret redis_key old) new
    else new

-- The loop that keeps the new keys only.
unfoldable pub keep_new : Passwords → Passwords → Passwords
unfolding find_secret
keep_new old new = map (λ entry. (entry.0, value_or entry.1 (find_secret entry.0 old))) new

-- `new_passwords.update(old_passwords)`
unfoldable pub update_all : Passwords → Passwords → Passwords
unfolding put_secret
update_all new [] = new
update_all new ((k, v) ∷ old) = update_all (put_secret k v new) old

unfoldable pub merge_passwords : Bool → Passwords → Passwords → Passwords
unfolding migrate_valkey keep_new update_all
merge_passwords clean old new =
    if clean then keep_new old (migrate_valkey old new) else update_all (migrate_valkey old new) old

-- `open` raises where the file is missing.
abbrev pub opened : Option Loaded → Result Loaded
opened none = err (external "No such file or directory")
opened (some loaded) = ok loaded

abbrev pub passwords_of : Loaded → Result Passwords
passwords_of other_document = err (system_exit 1)
passwords_of (mapping passwords) = ok passwords

-- 0o640
abbrev pub file_mode : ℕ
file_mode = 416

-- An OSError is ignored.
abbrev pub ignore_error : {W : Type 0} → Exec W (Unit {0}) → Exec W (Unit {0})
ignore_error m w = (ok tt, (m w).1)

module _ {W : Type 0} (files : PasswordFiles W) where
  -- The file is written anew, with its mode.
  abbrev pub replace_file : String → Passwords → Exec W (Unit {0})
  replace_file path passwords = do
    ignore_error (files.remove path)
    files.write path file_mode passwords

  unfoldable pub mergepwd : String → String → String → Bool → Exec W (Unit {0})
  unfolding merge_passwords
  mergepwd old new final clean = do
    old_found ← files.load old
    old_file ← lift (opened old_found)
    new_found ← files.load new
    new_file ← lift (opened new_found)
    old_passwords ← lift (passwords_of old_file)
    new_passwords ← lift (passwords_of new_file)
    replace_file final (merge_passwords clean old_passwords new_passwords)
