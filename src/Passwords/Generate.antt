-- ===== src/Passwords/Generate.antt =====
-- kolla_ansible/cmd/genpwd.py. The warnings about the mode of the file are left out.
use irnmn.Prelude.{
  ℕ, zero, suc, String, Bool, true, false, ◌&&◌, ◌==◌, any, List, [], ◌∷◌, ◌&◌, Option, none, some,
  if◌then◌else◌,
}
use irnmn.Effect.{Result, ok, err, Exec, pure, lift, system_exit, external, ◌>>=◌}
use irnmn.Passwords.{Secret, unset, password, fields, Passwords, Loaded, PasswordFiles}
use irnmn.Passwords.Merge.{passwords_of, replace_file}

-- The random sources of the libraries, and `hmac.new(key, b'', md5).hexdigest()`.
pub record Generators (W : Type 0) : Type 0 where
  -- The private and the public key.
  pub rsa_pair : Exec W (String × String)
  pub uuid : Exec W String
  pub hmac_md5 : String → String
  pub fernet_key : Exec W String
  pub random_salt : ℕ → Exec W String
  -- `SystemRandom().choice` of the ASCII letters and digits, as a text.
  pub letter_or_digit : Exec W String

-- The keys of each kind, and the length of a password.
pub record KeyKinds : Type 0 where
  pub length : ℕ
  pub uuid_keys : List String
  pub ssh_keys : List String
  pub blank_keys : List String
  pub fernet_keys : List String
  pub hmac_md5_keys : List String
  pub bcrypt_keys : List String

-- `main`'s kinds
abbrev pub kolla_kinds : KeyKinds
kolla_kinds = record {
  length = 40;
  uuid_keys =
      "rbd_secret_uuid" ∷ "cinder_rbd_secret_uuid" ∷ "gnocchi_project_id" ∷ "gnocchi_resource_id"
      ∷ "gnocchi_user_id" ∷ "designate_pool_id" ∷ [];
  ssh_keys =
      "kolla_ssh_key" ∷ "nova_ssh_key" ∷ "keystone_ssh_key" ∷ "bifrost_ssh_key"
      ∷ "octavia_amp_ssh_key" ∷ "neutron_ssh_key" ∷ "haproxy_ssh_key" ∷ [];
  blank_keys = "docker_registry_password" ∷ [];
  hmac_md5_keys = "designate_rndc_key" ∷ "osprofiler_secret" ∷ [];
  fernet_keys = "barbican_crypto_key" ∷ [];
  bcrypt_keys = "prometheus_bcrypt_salt" ∷ [];
}

abbrev pub is_in : String → List String → Bool
is_in key keys = any (λ k. k == key) keys

-- `v.get(key)`, where a missing entry and a null read alike
unfoldable pub field_of : String → List (String × Option String) → Option String
field_of key [] = none
field_of key ((k, v) ∷ rest) = if k == key then v else field_of key rest

abbrev pub is_null : Option String → Bool
is_null none = true
is_null (some s) = false

-- `v is None or v.get('public_key') is None and v.get('private_key') is None`
unfoldable pub lacks_pair : Secret → Result Bool
unfolding field_of
lacks_pair unset = ok true
lacks_pair (password s) = err (external "'str' object has no attribute 'get'")
lacks_pair (fields entries) =
    ok (is_null (field_of "public_key" entries) && is_null (field_of "private_key" entries))

abbrev pub key_pair : String × String → Secret
key_pair (private, public) =
    fields (("private_key", some private) ∷ ("public_key", some public) ∷ [])

module _ {W : Type 0} (sources : Generators W) (kinds : KeyKinds) where
  unfoldable pub random_text : ℕ → Exec W String
  random_text zero = pure ""
  random_text (suc n) = do
    letter ← sources.letter_or_digit
    rest ← random_text n
    pure (letter & rest)

  -- The text for a null, by the kind of its key.
  unfoldable pub new_password : String → Exec W String
  unfolding random_text
  new_password key =
      if is_in key kinds.uuid_keys
      then sources.uuid
      else if is_in key kinds.hmac_md5_keys
      then (do id ← sources.uuid; pure (sources.hmac_md5 id))
      else if is_in key kinds.fernet_keys
      then sources.fernet_key
      else if is_in key kinds.bcrypt_keys
      then sources.random_salt 22
      else random_text kinds.length

  abbrev pub fill_null : String → Secret → Exec W Secret
  fill_null key unset =
      if is_in key kinds.blank_keys
      then pure unset
      else (do text ← new_password key; pure (password text))
  fill_null key v = pure v

  abbrev pub fill_pair : Bool → String → Secret → Exec W Secret
  fill_pair true key v = do pair ← sources.rsa_pair; pure (key_pair pair)
  fill_pair false key v = fill_null key v

  -- One round of the loop: the value that the key has afterwards.
  unfoldable pub fill : String → Secret → Exec W Secret
  unfolding lacks_pair new_password
  fill key v =
      if is_in key kinds.ssh_keys
      then (do lacks ← lift (lacks_pair v); fill_pair lacks key v)
      else fill_null key v

  unfoldable pub fill_all : Passwords → Exec W Passwords
  unfolding fill
  fill_all [] = pure []
  fill_all ((key, v) ∷ rest) = do
    filled ← fill key v
    later ← fill_all rest
    pure ((key, filled) ∷ later)

  abbrev pub found_passwords : Option Loaded → Result Passwords
  found_passwords none = err (system_exit 1)
  found_passwords (some loaded) = passwords_of loaded

  unfoldable pub genpwd : PasswordFiles W → String → Exec W (Unit {0})
  unfolding fill_all
  genpwd files path = do
    found ← files.load path
    passwords ← lift (found_passwords found)
    filled ← fill_all passwords
    replace_file files path filled
