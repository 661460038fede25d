-- ===== src/Wallet/Enclave.antt =====
-- dzta-wallet/src/lib.rs: the ciphertexts of the enclave's keys.
use dzta.Prelude.{Text, ok, map_err, ok_or, ◌++◌, Option, none, some, [], ◌∷◌, utf8, String}
use dzta.Prelude.Int.{ℤ}
use dzta.Errors.{WalletError, storage_error, serialization_error}
use dzta.Effects.{Io, lift, ◌>>=◌}
use dzta.Interfaces.Host.{FileSystem, Clock}
use dzta.Interfaces.Json.{Json, JsonBuilders}
use dzta.Interfaces.Askar.{Askar, Entry}
use dzta.Wallet.{
  Wallet, Holding, holding, initialize, store_of, session, fetch, put_entry, commit,
  enclave_category,
}

module _ {Value World : Type 0} (json : Json Value) (builders : JsonBuilders Value)
    (askar : Askar World) where
  unfoldable pub record_payload : Text → Text → Text → ℤ → Value
  record_payload credential_id wallet_key_ciphertext master_seed_ciphertext created_at =
      json.object (
        (utf8 "credential_id", json.string credential_id)
        ∷ (utf8 "wallet_key_ciphertext", json.string wallet_key_ciphertext)
        ∷ (utf8 "master_seed_ciphertext", json.string master_seed_ciphertext)
        ∷ (utf8 "created_at", json.number_i64 created_at)
        ∷ [])

  unfoldable pub store_enclave_vault_ciphertexts :
      Clock World → Text → Text → Text → Wallet askar → Io World WalletError (Unit {0})
  store_enclave_vault_ciphertexts clock credential_id wallet_key_ciphertext master_seed_ciphertext
        wallet =
      do
        store ← lift (store_of askar wallet)
        s ← session askar store
        payload_bytes ← (λ world.
            lift
              (map_err serialization_error (
                builders.to_vec (
                  record_payload credential_id wallet_key_ciphertext master_seed_ciphertext
                    (clock.now world))))
              world)
        _ ←
            put_entry askar s enclave_category credential_id
              (record { value = payload_bytes; tags = [] })
        commit askar s

  -- `val[name].as_str()`
  abbrev pub indexed_str : Value → String → Option Text
  indexed_str v name = elim (json.get v (utf8 name)) [
    | none ↦ none
    | some field ↦ json.as_str field
  ]

  -- The ciphertexts of an entry that was looked for.
  unfoldable pub ciphertexts_of : Text → Option Entry → Io World WalletError (Text × Text)
  ciphertexts_of credential_id found = do
    entry ← lift (
        ok_or found
          (storage_error (utf8 "No enclave secrets found for credential: " ++ credential_id)))
    v ← lift (map_err serialization_error (json.from_slice entry.value))
    wallet_key_ciphertext ← lift (
        ok_or (indexed_str v "wallet_key_ciphertext")
          (storage_error (utf8 "Invalid wallet_key_ciphertext in Askar")))
    master_seed_ciphertext ← lift (
        ok_or (indexed_str v "master_seed_ciphertext")
          (storage_error (utf8 "Invalid master_seed_ciphertext in Askar")))
    lift (ok (wallet_key_ciphertext, master_seed_ciphertext))

  unfoldable pub fetch_enclave_vault_ciphertexts :
      Text → Wallet askar → Io World WalletError (Text × Text)
  fetch_enclave_vault_ciphertexts credential_id wallet = do
    store ← lift (store_of askar wallet)
    s ← session askar store
    found ← fetch askar s enclave_category credential_id
    ciphertexts_of credential_id found

  unfoldable pub provision_and_bind_vault :
      FileSystem World → Clock World → Text → Text → Text → Text → Holding askar (Unit {0})
  provision_and_bind_vault files clock credential_id wallet_ciphertext seed_ciphertext
        unsealed_wallet_passkey =
      do
        _ ← initialize askar files unsealed_wallet_passkey
        holding askar
            (store_enclave_vault_ciphertexts clock credential_id wallet_ciphertext seed_ciphertext)
