-- ===== src/Passwords/Kept.antt =====
-- What genpwd keeps of a passwords file, and what it fills.
use irnmn.Prelude.{
  String, ◌≡◌, refl, ◌≢◌, Bool, true, false, Bool-cases, ◌==◌, ◌&&◌, List, if◌then◌else◌, inl, inr,
  ◌⊎◌, [], ◌∷◌, Option, none, some,
}
use irnmn.Effect.{Result, ok, err, lift, ◌>>=◌}
use irnmn.Effect.Post.{Returns, Returns-follow, Returns-bind, Returns-map}
use irnmn.Passwords.{
  Secret, unset, password, fields, Passwords, Loaded, mapping, other_document, PasswordFiles,
}
use irnmn.Passwords.Merge.{replace_file}
use irnmn.Passwords.Files.{WasRead, WasWritten, replace_file-WasWritten}
use irnmn.Passwords.Generate.{
  Generators, KeyKinds, is_in, is_null, field_of, lacks_pair, new_password, fill_null, fill_pair,
  fill, fill_all, found_passwords, genpwd,
}

-- The mapping has no entry of the name, or a null.
abbrev pub HasNo : String → List (String × Option String) → Type 0
HasNo name [] = Unit
HasNo name ((k, v) ∷ rest) = if k == name then v ≡ none else HasNo name rest

-- A mapping without a public and without a private key.
abbrev pub HasNoKeys : Secret → Type 0
HasNoKeys (fields entries) = HasNo "public_key" entries × HasNo "private_key" entries
HasNoKeys _ = ⊥

-- There is nothing in the value that could be lost: a null, or a mapping for an SSH key that has
-- neither key.
abbrev pub IsLacking : KeyKinds → String → Secret → Type 0
IsLacking kinds key v = (v ≡ unset) ⊎ ((is_in key kinds.ssh_keys ≡ true) × HasNoKeys v)

-- The value after the run: the same, unless the old one was lacking; and a null only for a key that
-- stays blank.
pub record IsFilled (kinds : KeyKinds) (key : String) (old new : Secret) : Type 0 where
  pub kept : (new ≡ old) ⊎ IsLacking kinds key old
  pub filled : (new ≢ unset) ⊎ (is_in key kinds.blank_keys ≡ true)

-- The same keys, in the order of the mapping that was read, each value filled.
abbrev pub AreFilled : KeyKinds → Passwords → Passwords → Type 0
AreFilled kinds [] [] = Unit
AreFilled kinds ((k, v) ∷ old) ((j, u) ∷ new) =
    (j ≡ k) × (IsFilled kinds k v u × AreFilled kinds old new)
AreFilled kinds _ _ = ⊥

null-none : (v : Option String) → is_null v ≡ true → v ≡ none
null-none none h = refl
null-none (some s) h = cc

field_of-HasNo :
    (name : String) (entries : List (String × Option String))
    → is_null (field_of name entries) ≡ true
    → HasNo name entries
unfolding field_of
field_of-HasNo name [] h = tt
field_of-HasNo name ((k, v) ∷ rest) h = elim (Bool-cases (k == name)) [
  | inl same ↦ rw same (null-none v (rw same at h))
  | inr other ↦ rw other (field_of-HasNo name rest (rw other at h))
]

both : (a b : Bool) → ok (a && b) ≡ ok true → (a ≡ true) × (b ≡ true)
both true true h = (refl, refl)
both true false h = cc
both false b h = cc

lacks_pair-IsLacking :
    (kinds : KeyKinds) (key : String) (v : Secret)
    → is_in key kinds.ssh_keys ≡ true
    → lacks_pair v ≡ ok true
    → IsLacking kinds key v
unfolding lacks_pair
lacks_pair-IsLacking kinds key unset is_ssh h = inl refl
lacks_pair-IsLacking kinds key (password s) is_ssh h = cc
lacks_pair-IsLacking kinds key (fields entries) is_ssh h =
    let (no_public, no_private) = both _ _ h in
    inr (
      is_ssh,
      (
        field_of-HasNo "public_key" entries no_public,
        field_of-HasNo "private_key" entries no_private,
      ),
    )

module _ {W : Type 0} (sources : Generators W) (kinds : KeyKinds) where
  fill_null-IsFilled :
      (key : String) (v : Secret) (w : W)
      → Returns (λ u _. IsFilled kinds key v u) (fill_null sources kinds key v w)
  fill_null-IsFilled key unset w = elim (Bool-cases (is_in key kinds.blank_keys)) [
    | inl blank ↦ rw blank (record { kept = inl refl; filled = inr blank })
    | inr asked ↦ rw asked (
        Returns-bind _ _ (new_password sources kinds key) w
          (λ text w' _. record { kept = inr (inl refl); filled = inl (λ e. cc) }))
  ]
  fill_null-IsFilled key (password s) w = record { kept = inl refl; filled = inl (λ e. cc) }
  fill_null-IsFilled key (fields entries) w = record { kept = inl refl; filled = inl (λ e. cc) }

  fill_pair-IsFilled :
      (lacks : Bool) (key : String) (v : Secret) (w : W)
      → is_in key kinds.ssh_keys ≡ true
      → lacks_pair v ≡ ok lacks
      → Returns (λ u _. IsFilled kinds key v u) (fill_pair sources kinds lacks key v w)
  fill_pair-IsFilled true key v w is_ssh lacks = Returns-bind _ _ sources.rsa_pair w (λ pair w' _.
      record { kept = inr (lacks_pair-IsLacking kinds key v is_ssh lacks); filled = inl (λ e. cc) })
  fill_pair-IsFilled false key v w is_ssh lacks = fill_null-IsFilled key v w

  fill-IsFilled :
      (key : String) (v : Secret) (w : W)
      → Returns (λ u _. IsFilled kinds key v u) (fill sources kinds key v w)
  unfolding fill
  fill-IsFilled key v w = elim (Bool-cases (is_in key kinds.ssh_keys)) [
    | inl is_ssh ↦ rw is_ssh (go is_ssh (lacks_pair v) refl)
    | inr other ↦ rw other (fill_null-IsFilled key v w)
  ]
    where
      go :
          is_in key kinds.ssh_keys ≡ true
          → (lacks : Result Bool) → lacks_pair v ≡ lacks
          → Returns
              (λ u _. IsFilled kinds key v u)
              ((lift lacks >>= λ b. fill_pair sources kinds b key v) w)
      go is_ssh (err e) lacks = tt
      go is_ssh (ok b) lacks = fill_pair-IsFilled b key v w is_ssh lacks

  fill_all-AreFilled :
      (passwords : Passwords) (w : W)
      → Returns (λ new _. AreFilled kinds passwords new) (fill_all sources kinds passwords w)
  unfolding fill_all
  fill_all-AreFilled [] w = tt
  fill_all-AreFilled ((key, v) ∷ rest) w =
      Returns-follow _ _ (fill sources kinds key v w) (fill-IsFilled key v w) (λ u w' filled.
        Returns-follow _ _ (fill_all sources kinds rest w') (fill_all-AreFilled rest w')
          (λ later _ are. (refl, (filled, are))))

module _ {W : Type 0} (sources : Generators W) (kinds : KeyKinds) (files : PasswordFiles W)
    (path : String) where
  -- The file was read as `old` in the first state and written as its filled mapping in the second.
  abbrev pub FilledFile : W → W → Type 0
  FilledFile w w' =
      (old new : Passwords) × WasRead files path old w
      × AreFilled kinds old new
      × WasWritten files path new w'

  written :
      (w v : W) (old : Passwords)
      → WasRead files path old w
      → Returns
          (λ _ w'. FilledFile w w')
          ((fill_all sources kinds old >>= λ filled. replace_file files path filled) v)
  written w v old read =
      Returns-follow _ _ (fill_all sources kinds old v) (fill_all-AreFilled sources kinds old v)
        (λ new v' are.
          Returns-map _ _ (replace_file files path new v')
            (λ _ _ wrote. (old, new, read, are, wrote)) (replace_file-WasWritten files path new v'))

  loaded :
      (w v : W) (found : Option Loaded)
      → files.load path w ≡ (ok found, v)
      → Returns
          (λ _ w'. FilledFile w w')
          ((lift (found_passwords sources kinds found) >>= λ passwords.
              fill_all sources kinds passwords >>= λ filled. replace_file files path filled)
            v)
  loaded w v none read = tt
  loaded w v (some other_document) read = tt
  loaded w v (some (mapping old)) read = written w v old (v, read)

-- A run that returns has read a mapping and has given one with the same keys to the writer: a value
-- is another one only where it was null or the mapping of an SSH key without either half, and no
-- null stays but for a key that stays blank.
pub genpwd-AreFilled :
    {W : Type 0} (sources : Generators W) (kinds : KeyKinds) (files : PasswordFiles W)
    (path : String) (w : W)
    → Returns
        (λ _ w'.
          (old new : Passwords) × WasRead files path old w
          × AreFilled kinds old new
          × WasWritten files path new w')
        (genpwd sources kinds files path w)
unfolding genpwd
genpwd-AreFilled sources kinds files path w =
    Returns-bind _ _ (files.load path) w
      (λ found v read. loaded sources kinds files path w v found read)
