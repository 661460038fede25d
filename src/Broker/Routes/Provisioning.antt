-- ===== src/Broker/Routes/Provisioning.antt =====
-- A device that the broker of the sample provisions.
use dzta.Prelude.{◌≡◌, refl, ok, err, none, [], ◌∷◌, utf8, trim}
use dzta.Interfaces.Http.{JsonArrays}
use dzta.Interfaces.Witnesses.Hashes.{checksum}
use dzta.Interfaces.Witnesses.Ciphers.{identity_base64}
use dzta.Interfaces.Witnesses.Proofs.{Document, reads, string, empty, field}
use dzta.Broker.Routes.Provision.{Provisioned, provision_datakey-Provisioned}
use dzta.Broker.{ProvisioningDataKeyResponse}
use dzta.Broker.Vault.{
  engine_provision_datakey, generate_vault_random_seed, encrypt, VaultReaders,
  wrap_bytes_for_enclave,
}
use dzta.Broker.Routes.{provision_datakey}
use dzta.Broker.Routes.Sample.{enclave_key, library, client, rsa, state, display}

-- Vault as a device is provisioned: each answer reads as a key, a seed and a ciphertext.
abbrev provision_readers : VaultReaders
provision_readers = record {
  decrypt_response = λ s. err [];
  datakey_response = λ s. ok (record { plaintext = 9 ∷ []; ciphertext = 87 ∷ []; errors = [] });
  seed_response = λ s. ok (record { random_bytes = 8 ∷ []; errors = [] });
}

abbrev ciphertext_document : Document
ciphertext_document = field (utf8 "data") (field (utf8 "ciphertext") (string (83 ∷ [])) empty) empty

abbrev no_arrays : JsonArrays (reads ciphertext_document)
no_arrays = record { as_array = λ v. none }

abbrev provisioned : ProvisioningDataKeyResponse
provisioned = record {
  wallet_ciphertext = 87 ∷ [];
  encrypted_wallet_key_for_enclave = 77 ∷ 9 ∷ [];
  seed_ciphertext = 83 ∷ [];
  encrypted_master_seed_for_enclave = 77 ∷ 8 ∷ [];
}

provision_datakey_run :
    provision_datakey checksum identity_base64
      (reads ciphertext_document)
      no_arrays
      provision_readers
      client
      rsa
      library
      display
      state
      enclave_key
      0
    ≡ (ok provisioned, 8)
unfolding provision_datakey engine_provision_datakey generate_vault_random_seed encrypt
    wrap_bytes_for_enclave trim utf8
provision_datakey_run = refl

provision_datakey-Provisioned_example :
    Provisioned checksum identity_base64
      (reads ciphertext_document)
      no_arrays
      provision_readers
      client
      rsa
      library
      display
      state
      enclave_key
      0
      8
      provisioned
provision_datakey-Provisioned_example =
    provision_datakey-Provisioned checksum identity_base64 (reads ciphertext_document) no_arrays
      provision_readers client rsa library display state enclave_key 0 8 provisioned
      provision_datakey_run
