-- ===== src/Broker/Routes/Examples.antt =====
-- The broker's theorems for an enclave whose key is one byte.
use dzta.Prelude.{◌≡◌, ◌⊎◌, ◌↔◌, refl, ok, [], ◌∷◌, utf8, trim}
use dzta.Interfaces.Witnesses.Hashes.{checksum}
use dzta.Interfaces.Witnesses.Ciphers.{identity_base64}
use dzta.Interfaces.Witnesses.Proofs.{reads}
use dzta.Broker.Session.{
  to_be_bytes, binding, session_digest, padded, bind_session, expected_report_data,
}
use dzta.Broker.Quote.{check_report, verify_sgx_quote}
use dzta.Broker.Quote.Bound.{check_report-bind_session}
use dzta.Broker.Quote.Accepted.{Attested, verify_sgx_quote_iff}
use dzta.Broker.Vault.{unwrap_datakey_for_enclave, decrypt, wrap_bytes_for_enclave}
use dzta.Broker.Routes.{
  UnwrapDatakeyRequest, UnwrapDatakeyResponse, ReleaseRequest, unwrap_datakey, release_key,
}
use dzta.Broker.Routes.Guarded.{
  IsAttested, Unwrapped, unwrap_datakey-guarded, release_key-guarded, unwrap_datakey-Unwrapped,
}
use dzta.Broker.Routes.Sample.{
  enclave_key, library, client, rsa, vault_document, arrays, readers, state, display,
  attested_enclave,
}

check_report-bind_session_example :
    check_report checksum identity_base64 library (1 ∷ []) (2 ∷ []) enclave_key 3 (record {
      mr_enclave = 1 ∷ [];
      mr_signer = 2 ∷ [];
      report_data = bind_session checksum (binding enclave_key 3);
    })
    ≡ ok tt
check_report-bind_session_example =
    check_report-bind_session checksum identity_base64 library (1 ∷ []) (2 ∷ []) enclave_key 3

verify_sgx_quote_iff_example :
    (verify_sgx_quote checksum identity_base64 library state (81 ∷ []) enclave_key 3
      ≡ ok attested_enclave)
    ↔ Attested checksum identity_base64 library state (81 ∷ []) enclave_key 3 attested_enclave
verify_sgx_quote_iff_example =
    verify_sgx_quote_iff checksum identity_base64 library state (81 ∷ []) enclave_key 3
      attested_enclave

abbrev unwrap_request : UnwrapDatakeyRequest
unwrap_request = record {
  quote = 81 ∷ [];
  enclave_public_key = enclave_key;
  required_clearance_level = 3;
  wallet_ciphertext = 87 ∷ [];
  seed_ciphertext = 83 ∷ [];
}

abbrev unwrapped : UnwrapDatakeyResponse
unwrapped = record {
  encrypted_wallet_key_for_enclave = 77 ∷ 9 ∷ [];
  encrypted_master_seed_for_enclave = 77 ∷ 9 ∷ [];
}

unwrap_datakey_run :
    unwrap_datakey checksum identity_base64
      (reads vault_document)
      arrays
      readers
      client
      rsa
      library
      display
      state
      unwrap_request
      0
    ≡ (ok unwrapped, 4)
unfolding unwrap_datakey bind_session to_be_bytes decrypt wrap_bytes_for_enclave
    unwrap_datakey_for_enclave utf8 trim verify_sgx_quote padded session_digest expected_report_data
    binding
unwrap_datakey_run = refl

unwrap_datakey-Unwrapped_example :
    Unwrapped checksum identity_base64
      (reads vault_document)
      arrays
      readers
      client
      rsa
      library
      display
      state
      unwrap_request
      0
      4
      unwrapped
unwrap_datakey-Unwrapped_example =
    unwrap_datakey-Unwrapped checksum identity_base64 (reads vault_document) arrays readers client
      rsa library display state unwrap_request 0 4 unwrapped unwrap_datakey_run

unwrap_datakey-guarded_example :
    ((unwrap_datakey checksum identity_base64
        (reads vault_document)
        arrays
        readers
        client
        rsa
        library
        display
        state
        unwrap_request
        0).1
      ≡ 0)
    ⊎ IsAttested checksum identity_base64
        (reads vault_document)
        arrays
        readers
        client
        rsa
        library
        display
        state
        (81 ∷ [])
        enclave_key
        3
unwrap_datakey-guarded_example =
    unwrap_datakey-guarded checksum identity_base64 (reads vault_document) arrays readers client rsa
      library display state unwrap_request 0

abbrev release_request : ReleaseRequest
release_request = record {
  quote = 81 ∷ [];
  enclave_public_key = enclave_key;
  credential_key_id = 49 ∷ [];
  required_clearance_level = 4;
  wallet_ciphertext = 87 ∷ [];
  seed_ciphertext = 83 ∷ [];
}

release_key-guarded_example :
    ((release_key checksum identity_base64
        (reads vault_document)
        arrays
        readers
        client
        rsa
        library
        display
        state
        release_request
        0).1
      ≡ 0)
    ⊎ IsAttested checksum identity_base64
        (reads vault_document)
        arrays
        readers
        client
        rsa
        library
        display
        state
        (81 ∷ [])
        enclave_key
        4
release_key-guarded_example =
    release_key-guarded checksum identity_base64 (reads vault_document) arrays readers client rsa
      library display state release_request 0
