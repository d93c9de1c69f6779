-- ===== src/Passwords.antt =====
-- The passwords files of kolla_ansible/cmd, and what the commands use of the host.
pub mod Merge
pub mod Files
pub mod Merged
pub mod Written
pub mod Generate
pub mod Kept
mod Tests
use irnmn.Prelude.{
  ℕ, String, Bool, true, false, not, ◌==◌, is_blank, is_empty, List, [], ◌∷◌, Option, none, some,
  if◌then◌else◌,
}
use irnmn.Effect.{Exec}

-- A value of the file: a null, a text, or a mapping of texts and nulls.
pub data Secret : Type 0 where
  unset : Secret
  password : String → Secret
  fields : List (String × Option String) → Secret

-- The loaded mapping, in the order of the file.
abbrev pub Passwords : Type 0
Passwords = List (String × Secret)

-- What `yaml.safe_load` gives for a file that is there.
pub data Loaded : Type 0 where
  mapping : Passwords → Loaded
  other_document : Loaded

-- Files by their path: `open` and `yaml.safe_load`, `none` for a file that is missing; and the
-- removal and the writing of a file with its mode, as `yaml.safe_dump` prints it.
pub record PasswordFiles (W : Type 0) : Type 0 where
  pub load : String → Exec W (Option Loaded)
  pub remove : String → Exec W (Unit {0})
  pub write : String → ℕ → Passwords → Exec W (Unit {0})

-- `passwords.get(key)`, or nothing where the key is not there
unfoldable pub find_secret : String → Passwords → Option Secret
find_secret key [] = none
find_secret key ((k, v) ∷ rest) = if k == key then some v else find_secret key rest

-- `passwords[key] = value`
unfoldable pub put_secret : String → Secret → Passwords → Passwords
put_secret key v [] = (key, v) ∷ []
put_secret key v ((k, u) ∷ rest) =
    if k == key then (k, v) ∷ rest else (k, u) ∷ put_secret key v rest

-- `bool(value)`
abbrev pub is_set : Secret → Bool
is_set unset = false
is_set (password s) = not (is_blank s)
is_set (fields entries) = not (is_empty entries)
