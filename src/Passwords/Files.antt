-- ===== src/Passwords/Files.antt =====
-- A passwords file that was read or written.
use irnmn.Prelude.{String, ◌≡◌, some}
use irnmn.Effect.{ok}
use irnmn.Effect.Post.{Returns, Returns-self}
use irnmn.Passwords.{Passwords, mapping, PasswordFiles}
use irnmn.Passwords.Merge.{file_mode, replace_file}

-- The mapping that the file at the path had, when it was read.
abbrev pub WasRead : {W : Type 0} → PasswordFiles W → String → Passwords → W → Type 0
WasRead {W} files path passwords w =
    (w' : W) × (files.load path w ≡ (ok (some (mapping passwords)), w'))

-- The last call has written the file, readable for its owner and group alone.
abbrev pub WasWritten : {W : Type 0} → PasswordFiles W → String → Passwords → W → Type 0
WasWritten {W} files path passwords w' =
    (w : W) × (files.write path file_mode passwords w ≡ (ok tt, w'))

pub replace_file-WasWritten :
    {W : Type 0} (files : PasswordFiles W) (path : String) (passwords : Passwords) (w : W)
    → Returns (λ _ w'. WasWritten files path passwords w') (replace_file files path passwords w)
replace_file-WasWritten files path passwords w =
    Returns-self (λ _ w'. WasWritten files path passwords w') (replace_file files path passwords w)
      (λ _ w' written. ((files.remove path w).1, written))
