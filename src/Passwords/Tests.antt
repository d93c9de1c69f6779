-- ===== src/Passwords/Tests.antt =====
-- Files in memory, and the commands on them.
use irnmn.Prelude.{
  ℕ, suc, String, ◌≡◌, refl, true, ◌==◌, [], ◌∷◌, Option, none, some, if◌then◌else◌,
}
use irnmn.Text.Numbers.{show}
use irnmn.Effect.{ok, err, system_exit}
use irnmn.Effect.Post.{Returns}
use irnmn.Passwords.{unset, password, Passwords, Loaded, mapping, other_document, PasswordFiles}
use irnmn.Passwords.Merge.{mergepwd}
use irnmn.Passwords.Files.{WasRead, WasWritten}
use irnmn.Passwords.Written.{MergedFile, mergepwd-MergedFile}
use irnmn.Passwords.Generate.{Generators, kolla_kinds, genpwd}
use irnmn.Passwords.Kept.{AreFilled, genpwd-AreFilled}

record Disk : Type 0 where
  pub contents : String → Option Loaded
  pub drawn : ℕ

abbrev disk_files : PasswordFiles Disk
disk_files = record {
  load = λ path d. (ok (d.contents path), d);
  remove = λ path d. (ok tt, record d { contents = λ p. if p == path then none else d.contents p });
  write = λ path mode passwords d. (
    ok tt,
    record d { contents = λ p. if p == path then some (mapping passwords) else d.contents p },
  );
}

abbrev sources : Generators Disk
sources = record {
  rsa_pair = λ d. (ok ("private", "public"), d);
  uuid = λ d. (ok "8d6cd3ff", record d { drawn = suc d.drawn });
  hmac_md5 = λ id. id;
  fernet_key = λ d. (ok "fernet", d);
  random_salt = λ n d. (ok "salt", d);
  letter_or_digit = λ d. (ok (show d.drawn), record d { drawn = suc d.drawn });
}

abbrev olds : Passwords
olds =
    ("redis_master_password", password "r3d1s")
    ∷ ("keystone_admin_password", password "s3cret")
    ∷ ("gone_password", password "old")
    ∷ []

abbrev news : Passwords
news = ("keystone_admin_password", unset) ∷ ("valkey_master_password", unset) ∷ []

abbrev disk : Disk
disk = record {
  contents = λ path.
      if path == "old.yml"
      then some (mapping olds)
      else if path == "new.yml"
      then some (mapping news)
      else if path == "list.yml"
      then some other_document
      else none;
  drawn = 0;
}

mergepwd-MergedFile_example :
    Returns
      (λ _ d. MergedFile disk_files "old.yml" "new.yml" "final.yml" true disk d)
      (mergepwd disk_files "old.yml" "new.yml" "final.yml" true disk)
mergepwd-MergedFile_example =
    mergepwd-MergedFile disk_files "old.yml" "new.yml" "final.yml" true disk

-- A clean merge: Redis's password is Valkey's, and the key that is gone is dropped.
clean_merged :
    (mergepwd disk_files "old.yml" "new.yml" "final.yml" true disk).1.contents "final.yml"
    ≡ some (
        mapping (
          ("keystone_admin_password", password "s3cret")
          ∷ ("valkey_master_password", password "r3d1s")
          ∷ []))
unfolding mergepwd
clean_merged = refl

genpwd-AreFilled_example :
    Returns
      (λ _ d.
        (old new : Passwords) × WasRead disk_files "new.yml" old disk
        × AreFilled kolla_kinds old new
        × WasWritten disk_files "new.yml" new d)
      (genpwd sources kolla_kinds disk_files "new.yml" disk)
genpwd-AreFilled_example = genpwd-AreFilled sources kolla_kinds disk_files "new.yml" disk

-- A document that is no mapping ends the command.
not_a_mapping : (genpwd sources kolla_kinds disk_files "list.yml" disk).0 ≡ err (system_exit 1)
unfolding genpwd
not_a_mapping = refl
