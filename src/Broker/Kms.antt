-- ===== src/Broker/Kms.antt =====
-- The two secret providers of dzta-attestation-broker/src/lib.rs: VaultSecretRelease, which unwraps
-- with Vault and wraps for the enclave, and HttpsKmsProvider, which asks a key management service.
use dzta.Prelude.{
  ℕ, Text, Result, ok, err, map_err, ◌++◌, Option, none, some, List, [], ◌∷◌, utf8, is_empty, ◌||◌,
  if◌then◌else◌,
}
use dzta.Errors.{BrokerError, request, provider, configuration}
use dzta.Interfaces.Groth16.{Base64}
use dzta.Interfaces.Http.{HttpResponse, Client, Rsa, JsonArrays}
use dzta.Interfaces.Json.{Json}
use dzta.Effects.{Io, lift, map_failure, ◌>>=◌}
use dzta.Broker.{
  VaultTransitProvider, HttpsKmsProvider, VerifiedEnclave, WrappedEnclaveSecrets, SecretProvider,
}
use dzta.Broker.Vault.{VaultReaders, decrypt_envelope, response_error, require_success}

module _ {Value Key World : Type 0} (base64 : Base64) (json : Json Value) (arrays : JsonArrays json)
    (readers : VaultReaders) (client : Client World) (rsa : Rsa Key World) where
  -- The release once the identity of the enclave is complete.
  release_secrets :
      VaultTransitProvider
      → VerifiedEnclave
      → Text
      → Text
      → Text
      → Io World BrokerError WrappedEnclaveSecrets
  release_secrets vault enclave credential_key_id wallet_ciphertext seed_ciphertext = do
    wallet_key ← decrypt_envelope base64 json arrays readers client rsa vault wallet_ciphertext
    master_seed ← decrypt_envelope base64 json arrays readers client rsa vault seed_ciphertext
    public_key ← lift (
        map_err (response_error "invalid enclave public key: ")
          (rsa.from_public_key_pem enclave.enclave_public_key))
    encrypted_wallet_key ← (λ world.
        map_failure (response_error "failed to wrap wallet key: ")
          (rsa.encrypt public_key wallet_key world))
    encrypted_master_seed ← (λ world.
        map_failure (response_error "failed to wrap master seed: ")
          (rsa.encrypt public_key master_seed world))
    lift (
        ok (record {
          encrypted_wallet_key = base64.encode encrypted_wallet_key;
          encrypted_master_seed = base64.encode encrypted_master_seed;
          key_encryption_algorithm = utf8 "RSA-OAEP-SHA256:" ++ credential_key_id;
        }))

  -- VaultSecretRelease
  pub vault_release : VaultTransitProvider → SecretProvider World
  unfolding release_secrets
  vault_release vault enclave credential_key_id wallet_ciphertext seed_ciphertext =
      if is_empty enclave.quote
        || is_empty enclave.report_data
        || is_empty enclave.enclave_public_key
      then lift (err (configuration (utf8 "verified enclave identity is incomplete")))
      else release_secrets vault enclave credential_key_id wallet_ciphertext seed_ciphertext

-- The Authorization header of an optional bearer token.
abbrev bearer : Option Text → List (Text × Text)
bearer none = []
bearer (some token) = (utf8 "authorization", utf8 "Bearer " ++ token) ∷ []

-- The JSON of KmsReleaseRequest, and serde_json::from_slice at WrappedEnclaveSecrets.
-- `text` reads the body of a response as text, which can fail.
pub record KmsFormat : Type 0 where
  pub text : HttpResponse → Result Text Text
  pub release_request : VerifiedEnclave → Text → Text → Text → Text
  pub secrets_from_slice : Text → Result Text WrappedEnclaveSecrets

-- The error of a response that is no success.
abbrev rejection : ℕ → Result Text Text → BrokerError
rejection status (ok body) = provider status body
rejection status (err e) = request e

-- HttpsKmsProvider
pub kms_release :
    {World : Type 0} → KmsFormat → Client World → HttpsKmsProvider → SecretProvider World
kms_release format client kms enclave credential_key_id wallet_ciphertext seed_ciphertext = do
  answer ← (λ world. map_failure request (
      client.send
        (record {
          url = kms.endpoint;
          headers = bearer kms.bearer_token;
          body =
              some (
                format.release_request enclave credential_key_id wallet_ciphertext seed_ciphertext);
        })
        world))
  _ ← lift (require_success answer.status (rejection answer.status (format.text answer)))
  lift (map_err request (format.secrets_from_slice answer.body))
