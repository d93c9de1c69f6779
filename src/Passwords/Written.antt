-- ===== src/Passwords/Written.antt =====
-- What a merge of two passwords files writes.
use irnmn.Prelude.{String, ◌≡◌, Bool, ap, ◌∙◌, Option, none, some, arith}
use irnmn.Effect.{ok}
use irnmn.Effect.Post.{Returns, Returns-bind, Returns-continue, Returns-map}
use irnmn.Passwords.{Passwords, Loaded, mapping, other_document, PasswordFiles, find_secret}
use irnmn.Passwords.Merge.{merge_passwords, opened, passwords_of, replace_file, mergepwd}
use irnmn.Passwords.Files.{WasRead, WasWritten, replace_file-WasWritten}
use irnmn.Passwords.Merged.{IsMapping, merged_value, merge_passwords-value}

opened-some : (found : Option Loaded) (file : Loaded) → opened found ≡ ok file → found ≡ some file
opened-some none file h = absurd (ground (arith, h))
opened-some (some loaded) file h = cc

passwords_of-mapping :
    (file : Loaded) (passwords : Passwords)
    → passwords_of file ≡ ok passwords
    → file ≡ mapping passwords
passwords_of-mapping other_document passwords h = absurd (ground (arith, h))
passwords_of-mapping (mapping found) passwords h = cc

was_read :
    {W : Type 0} (files : PasswordFiles W) (path : String) (w v : W) (found : Option Loaded)
    (file : Loaded) (passwords : Passwords)
    → opened found ≡ ok file
    → passwords_of file ≡ ok passwords
    → files.load path w ≡ (ok found, v)
    → WasRead files path passwords w
was_read files path w v found file passwords is_file is read =
    let same = opened-some found file is_file ∙ ap some (passwords_of-mapping file passwords is) in
    (v, read ∙ ap (λ f. (ok f, v)) same)

module _ {W : Type 0} (files : PasswordFiles W) (old new final : String) (clean : Bool) where
  -- The files were read as mappings, the old one in the first state, and the merged one was written
  -- by the last call.
  abbrev pub MergedFile : W → W → Type 0
  MergedFile w w' =
      (olds news merged : Passwords) × WasRead files old olds w
      × ((v : W) × WasRead files new news v)
      × WasWritten files final merged w'
      × ((key : String)
          → IsMapping olds
          → find_secret key merged ≡ merged_value clean key olds news)

  written :
      (w u x : W) (olds news : Passwords)
      → WasRead files old olds w
      → WasRead files new news u
      → Returns
          (λ _ w'. MergedFile w w')
          (replace_file files final (merge_passwords clean olds news) x)
  written w u x olds news read_old read_new =
      Returns-map _ _ (replace_file files final (merge_passwords clean olds news) x)
        (λ _ _ wrote. (
          olds,
          news,
          merge_passwords clean olds news,
          read_old,
          (u, read_new),
          wrote,
          λ key distinct. merge_passwords-value clean olds news key distinct,
        ))
        (replace_file-WasWritten files final (merge_passwords clean olds news) x)

-- A merge that returns has read two mappings and written one, in which each key has the old value,
-- where there is one, or else the new one, Redis's password coming before a new one of Valkey; a
-- clean merge drops the keys that the new file lacks.
pub mergepwd-MergedFile :
    {W : Type 0} (files : PasswordFiles W) (old new final : String) (clean : Bool) (w : W)
    → Returns
        (λ _ w'. MergedFile files old new final clean w w')
        (mergepwd files old new final clean w)
unfolding mergepwd
mergepwd-MergedFile {W = W} files old new final clean w =
    Returns-bind Q _ (files.load old) w (λ old_found v read_old.
      Returns-continue Q _ (opened old_found) v (λ old_file old_opened.
        Returns-bind Q _ (files.load new) v (λ new_found x read_new.
          Returns-continue Q _ (opened new_found) x (λ new_file new_opened.
            Returns-continue Q _ (passwords_of old_file) x (λ olds is_old.
              Returns-continue Q _ (passwords_of new_file) x (λ news is_new.
                written files old new final clean w v x olds news
                  (was_read files old w v old_found old_file olds old_opened is_old read_old)
                  (was_read files new v x new_found new_file news new_opened is_new read_new)))))))
  where
    Q : Unit {0} → W → Type 0
    Q _ w' = MergedFile files old new final clean w w'
