-- ===== src/Wallet.antt =====
-- dzta-wallet/src/lib.rs: the holder's wallet, which has no ledger. A wallet is a value that
-- `initialize` replaces, and stays as it was replaced where a later step fails.
pub mod Attributes
pub mod Enclave
pub mod Bound
mod Examples
use dzta.Prelude.{
  Text, Result, ok, err, map_err, ok_or, ◌++◌, Option, none, some, List, [], ◌∷◌, utf8,
  if◌then◌else◌, String,
}
use dzta.Errors.{
  WalletError, WalletResult, storage_error, credential_not_found, serialization_error,
}
use dzta.Effects.{Io, lift, map_failure, ◌>>=◌}
use dzta.Interfaces.Host.{FileSystem, Clock}
use dzta.Interfaces.Crypto.{Sha256, Aes256Gcm}
use dzta.Interfaces.Json.{Json, JsonBuilders}
use dzta.Interfaces.Askar.{Askar, Entry, Random}
use dzta.Shared.WalletRecord.{encrypt_wallet_record, decrypt_wallet_record}
use dzta.Fabric.Models.{CredentialAttributes}
use dzta.Fabric.Credentials.{database_uri, storage_failure, category, seed_category, seed_name}
use dzta.Wallet.Attributes.{proofable_fields_of}

pub record Wallet {World : Type 0} (askar : Askar World) : Type 0 where
  pub askar_store_path : Text
  pub askar_store : Option askar.Store
  pub askar_passphrase : Option Text

abbrev pub enclave_category : Text
enclave_category = utf8 "enclave_secrets"

module _ {World : Type 0} (askar : Askar World) where
  unfoldable new_wallet : Text → Wallet askar
  new_wallet askar_store_path = record {
    askar_store_path = askar_store_path;
    askar_store = none;
    askar_passphrase = none;
  }

  -- Operations that also replace the wallet.
  abbrev pub Holding : Type 0 → Type 0
  Holding A = Io (Wallet askar × World) WalletError A

  abbrev pub holding : {A : Type 0} → (Wallet askar → Io World WalletError A) → Holding A
  holding action held = let (out, after) = action held.0 held.1 in (out, (held.0, after))

  abbrev pub hold : Wallet askar → Holding (Unit {0})
  hold wallet held = (ok tt, (wallet, held.1))

  abbrev create_parent : FileSystem World → Option Text → Io World WalletError (Unit {0})
  create_parent files none world = (ok tt, world)
  create_parent files (some parent) world =
      map_failure (storage_failure "Directory provisioning failed: ")
        (files.create_dir_all parent world)

  -- The store that `initialize` opens or makes.
  unfoldable pub acquire : FileSystem World → Text → Wallet askar → Io World WalletError askar.Store
  acquire files pass_key wallet = do
    _ ← create_parent files (files.parent wallet.askar_store_path)
    (λ world. map_failure (storage_failure "Askar initialization failed: ") (
        if files.exists wallet.askar_store_path world
        then askar.open_store (database_uri wallet.askar_store_path) pass_key world
        else askar.provision (database_uri wallet.askar_store_path) pass_key world))

  unfoldable pub initialize : FileSystem World → Text → Holding (Unit {0})
  initialize files pass_key = do
    store ← holding (acquire files pass_key)
    (λ held.
        hold (record held.0 { askar_store = some store; askar_passphrase = some pass_key }) held)

  -- unlock_with_vault_passkey
  unfoldable unlock_with_vault_passkey : FileSystem World → Text → Holding (Unit {0})
  unlock_with_vault_passkey files unsealed_passkey = initialize files unsealed_passkey

  unfoldable pub get_askar_passphrase : Wallet askar → WalletResult Text
  get_askar_passphrase wallet =
      ok_or wallet.askar_passphrase (storage_error (utf8 "Askar store passphrase not cached"))

  unfoldable pub store_of : Wallet askar → WalletResult askar.Store
  store_of wallet = ok_or wallet.askar_store (storage_error (utf8 "Askar store not initialized"))

  -- Askar's calls with the error of `storage_error`.
  abbrev pub session : askar.Store → Io World WalletError askar.Session
  session store world = map_failure storage_error (askar.session store world)

  abbrev pub fetch : askar.Session → Text → Text → Io World WalletError (Option Entry)
  fetch s category_name name world =
      map_failure storage_error (askar.fetch s category_name name world)

  abbrev pub put_entry : askar.Session → Text → Text → Entry → Io World WalletError (Unit {0})
  put_entry s category_name name entry world =
      map_failure storage_error (askar.insert s category_name name entry world)

  abbrev pub commit : askar.Session → Io World WalletError (Unit {0})
  commit s world = map_failure storage_error (askar.commit s world)

  abbrev fetch_credential : askar.Session → Text → Io World WalletError Entry
  fetch_credential s credential_id = do
    found ← fetch s category credential_id
    lift (ok_or found (credential_not_found credential_id))

  unfoldable fetch_raw_encrypted_record : Text → Wallet askar → Io World WalletError Text
  unfolding store_of
  fetch_raw_encrypted_record credential_id wallet = do
    store ← lift (store_of wallet)
    s ← session store
    entry ← fetch_credential s credential_id
    lift (ok entry.value)

  unfoldable mark_credential_revoked :
      Clock World → Text → Wallet askar → Io World WalletError (Unit {0})
  unfolding store_of
  mark_credential_revoked clock credential_id wallet = do
    store ← lift (store_of wallet)
    s ← session store
    entry ← fetch_credential s credential_id
    _ ← (λ world. map_failure storage_error (
        askar.replace s category credential_id
          (record {
            value = entry.value;
            tags =
                (utf8 "revoked", utf8 "true") ∷ (utf8 "revoked_at", clock.now_rfc3339 world) ∷ [];
          })
          world))
    commit s

  abbrev seed_or_new : Random World → askar.Session → Option Entry → Io World WalletError Text
  seed_or_new random s (some entry) = lift (ok entry.value)
  seed_or_new random s none = do
    seed ← (λ w. map_failure (storage_failure "RNG generation failed: ") (random.getrandom 32 w))
    _ ← put_entry s seed_category seed_name (record { value = seed; tags = [] })
    _ ← commit s
    lift (ok seed)

  unfoldable get_or_create_zkp_secret_seed : Random World → Wallet askar → Io World WalletError Text
  unfolding store_of
  get_or_create_zkp_secret_seed random wallet = do
    store ← lift (store_of wallet)
    s ← session store
    found ← fetch s seed_category seed_name
    seed_or_new random s found

  module _ {Crypter Value : Type 0} (sha : Sha256) (aes : Aes256Gcm Crypter) (json : Json Value)
      (display : WalletError → Text) where
    -- The nonce of encrypt_wallet_record is drawn from the system.
    unfoldable pub encrypt_under : Random World → Text → Text → Io World WalletError Text
    encrypt_under random plaintext passphrase world =
        let (nonce, after) = random.getrandom 12 world in
        (
          map_err (λ e. storage_error (display e))
              (encrypt_wallet_record sha aes nonce plaintext passphrase),
          after,
        )

    unfoldable store_credential :
        Clock World → Random World → Text → Value → Wallet askar → Io World WalletError (Unit {0})
    store_credential clock random credential_id credential_data wallet = do
      store ← lift (store_of wallet)
      passphrase ← lift (get_askar_passphrase wallet)
      encrypted ← encrypt_under random (json.to_string credential_data) passphrase
      s ← session store
      _ ← (λ world.
          put_entry s category credential_id
            (record {
              value = encrypted;
              tags =
                  (utf8 "stored_at", clock.now_rfc3339 world) ∷ (utf8 "revoked", utf8 "false") ∷ [];
            })
            world)
      commit s

    unfoldable pub get_credential : Text → Wallet askar → Io World WalletError Value
    get_credential credential_id wallet = do
      store ← lift (store_of wallet)
      s ← session store
      entry ← fetch_credential s credential_id
      passphrase ← lift (get_askar_passphrase wallet)
      cleartext ← lift (
          map_err (λ e. storage_error (display e))
            (decrypt_wallet_record sha aes entry.value passphrase))
      lift (map_err serialization_error (json.from_slice cleartext))

    unfoldable extract_proofable_fields :
        Text → Wallet askar → Io World WalletError CredentialAttributes
    unfolding get_credential
    extract_proofable_fields credential_id wallet = do
      credential ← get_credential credential_id wallet
      lift (proofable_fields_of json credential)
