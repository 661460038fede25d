-- ===== src/Broker/Routes.antt =====
-- The handlers of dzta-attestation-broker/src/routes/datakey.rs.
pub mod Guarded
pub mod Provision
pub mod Sample
mod Examples
mod Provisioning
use dzta.Prelude.{
  ℕ, Text, Result, ok, err, ok_or, ◌||◌, Option, utf8, is_empty, trim, if◌then◌else◌,
}
use dzta.Errors.{BrokerError}
use dzta.Interfaces.Crypto.{Sha256}
use dzta.Interfaces.Groth16.{Base64}
use dzta.Interfaces.Http.{Client, Rsa, JsonArrays}
use dzta.Interfaces.Json.{Json}
use dzta.Effects.{Io, lift, map_failure, ◌>>=◌}
use dzta.Broker.{
  AppState, ApiError, WrappedEnclaveSecrets, VaultDatakeyEngine, VerifiedEnclave,
  ProvisioningDataKeyResponse,
}
use dzta.Broker.Quote.{QuoteLibrary, verify_sgx_quote, bad_request}
use dzta.Broker.Vault.{
  VaultReaders, engine_provision_datakey, unwrap_datakey_for_enclave, generate_vault_random_seed,
  encrypt, wrap_bytes_for_enclave,
}

pub record UnwrapDatakeyRequest : Type 0 where
  pub quote : Text
  pub enclave_public_key : Text
  pub required_clearance_level : ℕ
  pub wallet_ciphertext : Text
  pub seed_ciphertext : Text

pub record UnwrapDatakeyResponse : Type 0 where
  pub encrypted_wallet_key_for_enclave : Text
  pub encrypted_master_seed_for_enclave : Text

pub record ReleaseRequest : Type 0 where
  pub quote : Text
  pub enclave_public_key : Text
  pub credential_key_id : Text
  pub required_clearance_level : ℕ
  pub wallet_ciphertext : Text
  pub seed_ciphertext : Text

module _ {Value Key World Collateral : Type 0} (sha : Sha256) (base64 : Base64) (json : Json Value)
    (arrays : JsonArrays json) (readers : VaultReaders) (client : Client World)
    (rsa : Rsa Key World) (library : QuoteLibrary Collateral) (display : BrokerError → Text) where
  -- `impl From<BrokerError> for ApiError`
  abbrev from_broker_error : BrokerError → ApiError
  from_broker_error e = record { status = 500; error = display e }

  abbrev engine_of : AppState World → Result ApiError VaultDatakeyEngine
  engine_of state =
      ok_or state.datakey_engine
        (record { status = 500; error = utf8 "Datakey engine not initialized" })

  abbrev run : {A : Type 0} → Io World BrokerError A → Io World ApiError A
  run action world = map_failure from_broker_error (action world)

  unfoldable provision : VaultDatakeyEngine → Text → Io World ApiError ProvisioningDataKeyResponse
  provision engine enclave_public_key = do
    wallet_provision ←
        run
          (engine_provision_datakey base64 json arrays readers client rsa engine enclave_public_key)
    raw_master_seed ← run (generate_vault_random_seed base64 json arrays readers client rsa engine)
    seed_ciphertext ← run (encrypt base64 json arrays readers client rsa engine raw_master_seed)
    encrypted_master_seed ← run (
        wrap_bytes_for_enclave base64 json arrays readers client rsa raw_master_seed
          enclave_public_key)
    lift (
        ok (record {
          wallet_ciphertext = wallet_provision.wallet_ciphertext;
          encrypted_wallet_key_for_enclave = wallet_provision.encrypted_wallet_key_for_enclave;
          seed_ciphertext = seed_ciphertext;
          encrypted_master_seed_for_enclave = encrypted_master_seed;
        }))

  unfoldable pub provision_datakey :
      AppState World → Text → Io World ApiError ProvisioningDataKeyResponse
  unfolding provision
  provision_datakey state enclave_public_key =
      if is_empty (trim enclave_public_key)
      then lift (err (bad_request "Enclave public key cannot be empty"))
      else lift (engine_of state) >>= λ engine. provision engine enclave_public_key

  unfoldable unwrap :
      AppState World → UnwrapDatakeyRequest → Io World ApiError UnwrapDatakeyResponse
  unwrap state req = do
    engine ← lift (engine_of state)
    enclave ← lift (
        verify_sgx_quote sha base64 library state req.quote req.enclave_public_key
          req.required_clearance_level)
    encrypted_wallet_key ← run (
        unwrap_datakey_for_enclave base64 json arrays readers client rsa display engine
          req.wallet_ciphertext enclave.enclave_public_key)
    encrypted_master_seed ← run (
        unwrap_datakey_for_enclave base64 json arrays readers client rsa display engine
          req.seed_ciphertext enclave.enclave_public_key)
    lift (
        ok (record {
          encrypted_wallet_key_for_enclave = encrypted_wallet_key;
          encrypted_master_seed_for_enclave = encrypted_master_seed;
        }))

  unfoldable pub unwrap_datakey :
      AppState World → UnwrapDatakeyRequest → Io World ApiError UnwrapDatakeyResponse
  unfolding unwrap
  unwrap_datakey state req =
      if is_empty (trim req.quote)
      then lift (err (bad_request "Invalid or empty enclave quote"))
      else if is_empty (trim req.wallet_ciphertext) || is_empty (trim req.seed_ciphertext)
      then lift (err (bad_request "Missing stored wallet or seed ciphertext"))
      else unwrap state req

  unfoldable pub release_key :
      AppState World → ReleaseRequest → Io World ApiError WrappedEnclaveSecrets
  release_key state req = do
    enclave ← lift (
        verify_sgx_quote sha base64 library state req.quote req.enclave_public_key
          req.required_clearance_level)
    run (state.kms enclave req.credential_key_id req.wallet_ciphertext req.seed_ciphertext)
