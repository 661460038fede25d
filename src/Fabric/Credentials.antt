-- ===== src/Fabric/Credentials.antt =====
-- fabric-client/src/credential_manager.rs: the credential manager's store. What the manager caches
-- under its locks, the open store and the passphrase, are fields that `initialize_askar_store` sets. Its
-- client of the ledger is a parameter of the operations that call it.
pub mod Session
pub mod Operations
pub mod Sealing
pub mod Specification
pub mod Refines
pub mod Seed
mod Examples
use dzta.Prelude.{
  ℕ, Text, Result, ok, err, map_err, ok_or, ◌++◌, Option, none, some, Bool, true, false, List, [],
  ◌∷◌, utf8, starts_with, String, ◌||◌, text_eq, if◌then◌else◌, find_map,
}
use dzta.Prelude.Patterns.{contains_text}
use dzta.Errors.{WalletError, WalletResult, storage_error, credential_not_found}
use dzta.Effects.{Io, lift, map_failure, ◌>>=◌}
use dzta.Interfaces.Host.{FileSystem, Clock}
use dzta.Interfaces.Crypto.{Sha256, Aes256Gcm}
use dzta.Interfaces.Json.{Json, JsonBuilders}
use dzta.Interfaces.Askar.{Askar, Entry, Random}
use dzta.Shared.WalletRecord.{encrypt_wallet_record, decrypt_wallet_record}

pub record CredentialManager {World : Type 0} (askar : Askar World) : Type 0 where
  pub askar_store_path : Text
  pub askar_store : Option askar.Store
  pub askar_passphrase : Option Text

abbrev pub storage_failure : String → Text → WalletError
storage_failure message e = storage_error (utf8 message ++ e)

abbrev pub category : Text
category = utf8 "credentials"

-- The `file:` or `://` test of the store's path.
abbrev pub database_uri : Text → Text
database_uri path =
    if starts_with path (utf8 "file:") || contains_text (utf8 "://") path
    then path
    else utf8 "sqlite://" ++ path

abbrev pub not_found : Text → WalletError
not_found credential_id = storage_failure "Credential not found: " credential_id

-- The value of the first tag called `revoked`, if there is one.
unfoldable pub is_revoked : List (Text × Text) → Bool
is_revoked tags =
    elim (find_map
      (λ tag. if text_eq tag.0 (utf8 "revoked") then some (text_eq tag.1 (utf8 "true")) else none)
      tags) [ some revoked ↦ revoked | none ↦ false ]

abbrev pub seed_category : Text
seed_category = utf8 "keys"

abbrev pub seed_name : Text
seed_name = utf8 "master_zkp_seed"

module _ {World : Type 0} (askar : Askar World) where
  -- CredentialManager::new
  pub new_manager : Text → CredentialManager askar
  new_manager askar_store_path = record {
    askar_store_path = askar_store_path;
    askar_store = none;
    askar_passphrase = none;
  }

  create_parent : FileSystem World → Option Text → Io World WalletError (Unit {0})
  create_parent fs none world = (ok tt, world)
  create_parent fs (some parent) world =
      map_failure (storage_failure "Directory provisioning failed: ")
        (fs.create_dir_all parent world)

  -- The manager with the store open and the passphrase cached; it is as it was where this fails.
  unfoldable pub initialize_askar_store :
      FileSystem World
      → CredentialManager askar
      → Text
      → Io World WalletError (CredentialManager askar)
  unfolding create_parent
  initialize_askar_store fs manager pass_key = do
    _ ← create_parent fs (fs.parent manager.askar_store_path)
    store ← (λ world. map_failure (storage_failure "Askar store initialization failed: ") (
        if fs.exists manager.askar_store_path world
        then askar.open_store (database_uri manager.askar_store_path) pass_key world
        else askar.provision (database_uri manager.askar_store_path) pass_key world))
    lift (ok (record manager { askar_store = some store; askar_passphrase = some pass_key }))

  unfoldable pub get_askar_passphrase : CredentialManager askar → WalletResult Text
  get_askar_passphrase manager =
      ok_or manager.askar_passphrase (storage_error (utf8 "Askar store passphrase not cached"))

  -- The open store, and a session on it.
  unfoldable pub open_store : CredentialManager askar → WalletResult askar.Store
  open_store manager =
      ok_or manager.askar_store (storage_error (utf8 "Askar store not initialized"))

  abbrev pub open_session : askar.Store → Io World WalletError askar.Session
  open_session store world =
      map_failure (storage_failure "Session creation failed: ") (askar.session store world)

  -- A fetch whose error has that text, and whose absent entry is that error.
  abbrev pub fetch_entry : String → Text → WalletError → askar.Session → Io World WalletError Entry
  fetch_entry message credential_id missing session = do
    found ← (λ world.
        map_failure (storage_failure message) (askar.fetch session category credential_id world))
    lift (ok_or found missing)

  unfoldable pub fetch_raw_encrypted_record :
      CredentialManager askar → Text → Io World WalletError Text
  fetch_raw_encrypted_record manager credential_id = do
    store ← lift (open_store manager)
    session ← open_session store
    entry ←
        fetch_entry "Raw record retrieval failed: " credential_id
          (credential_not_found credential_id) session
    lift (ok entry.value)

  unfoldable pub get_credential_metadata_from_askar :
      {Value : Type 0}
      → Json Value
      → JsonBuilders Value
      → CredentialManager askar
      → Text
      → Io World WalletError Value
  get_credential_metadata_from_askar json builders manager credential_id = do
    store ← lift (open_store manager)
    session ← open_session store
    entry ←
        fetch_entry "Metadata retrieval failed: " credential_id (not_found credential_id) session
    lift (ok (json.object ((utf8 "revoked", builders.bool (is_revoked entry.tags)) ∷ [])))

  abbrev pub commit_session : askar.Session → Io World WalletError (Unit {0})
  commit_session session world =
      map_failure (storage_failure "Session commit failed: ") (askar.commit session world)

  -- mark_credential_revoked_in_askar
  unfoldable pub mark_credential_revoked :
      Clock World → CredentialManager askar → Text → Io World WalletError (Unit {0})
  mark_credential_revoked clock manager credential_id = do
    store ← lift (open_store manager)
    session ← open_session store
    entry ← fetch_entry "Fetch failed: " credential_id (not_found credential_id) session
    _ ← (λ world. map_failure (storage_failure "Revocation update failed: ") (
        askar.replace session category credential_id
          (record {
            value = entry.value;
            tags =
                (utf8 "revoked", utf8 "true") ∷ (utf8 "revoked_at", clock.now_rfc3339 world) ∷ [];
          })
          world))
    commit_session session

  -- The second half of get_or_create_zkp_secret_seed: the entry that was found, or a new one.
  unfoldable pub seed_of : Random World → askar.Session → Option Entry → Io World WalletError Text
  seed_of random session (some entry) world = (ok entry.value, world)
  seed_of random session none world =
      ((λ w. map_failure (storage_failure "RNG generation failed: ") (random.getrandom 32 w))
          >>= λ new_seed.
              (λ w. map_failure (storage_failure "Failed to save ZKP seed: ") (
                askar.insert session seed_category seed_name
                  (record { value = new_seed; tags = [] }) w))
              >>= λ _.
                  (λ w. map_failure (storage_failure "Commit failed: ") (askar.commit session w))
                  >>= λ _. lift (ok new_seed))
        world

  unfoldable pub get_or_create_zkp_secret_seed :
      Random World → CredentialManager askar → Io World WalletError Text
  get_or_create_zkp_secret_seed random manager = do
    store ← lift (open_store manager)
    session ← open_session store
    found ← (λ world.
        map_failure (storage_failure "Fetch failed: ")
          (askar.fetch session seed_category seed_name world))
    seed_of random session found

  module _ {Crypter Value : Type 0} (sha : Sha256) (aes : Aes256Gcm Crypter) (json : Json Value)
      (display : WalletError → Text) where
    unfoldable pub retrieve_credential : CredentialManager askar → Text → Io World WalletError Value
    retrieve_credential manager credential_id = do
      store ← lift (open_store manager)
      session ← open_session store
      entry ←
          fetch_entry "Credential retrieval failed: " credential_id (not_found credential_id)
            session
      passphrase ← lift (get_askar_passphrase manager)
      cleartext ← lift (
          map_err (λ e. storage_error (display e))
            (decrypt_wallet_record sha aes entry.value passphrase))
      lift (map_err (storage_failure "Deserialization failed: ") (json.from_slice cleartext))

    -- The record encrypted under a nonce that is drawn now.
    abbrev pub encrypt_now : Random World → Text → Text → Io World WalletError Text
    encrypt_now random plaintext passphrase world =
        let (nonce, after) = random.getrandom 12 world in
        (
          map_err (λ e. storage_error (display e))
              (encrypt_wallet_record sha aes nonce plaintext passphrase),
          after,
        )

    unfoldable pub store_credential :
        Clock World
        → Random World
        → CredentialManager askar
        → Text
        → Value
        → Io World WalletError (Unit {0})
    store_credential clock random manager credential_id credential_data = do
      store ← lift (open_store manager)
      passphrase ← lift (get_askar_passphrase manager)
      encrypted_record ← encrypt_now random (json.to_string credential_data) passphrase
      session ← open_session store
      _ ← (λ world. map_failure (storage_failure "Credential storage failed: ") (
          askar.insert session category credential_id
            (record {
              value = encrypted_record;
              tags =
                  (utf8 "stored_at", clock.now_rfc3339 world) ∷ (utf8 "revoked", utf8 "false") ∷ [];
            })
            world))
      commit_session session
