-- ===== src/Broker.antt =====
-- dzta-attestation-broker: the data of src/lib.rs and src/routes.
pub mod Session
pub mod Quote
pub mod Vault
pub mod Kms
pub mod Routes
use dzta.Prelude.{ℕ, Text, Option}
use dzta.Errors.{BrokerError}
use dzta.Effects.{Io}

pub record WrappedEnclaveSecrets : Type 0 where
  pub encrypted_wallet_key : Text
  pub encrypted_master_seed : Text
  pub key_encryption_algorithm : Text

pub record VerifiedEnclave : Type 0 where
  pub quote : Text
  pub report_data : Text
  pub enclave_public_key : Text
  pub mrenclave : Text
  pub mrsigner : Text

-- release_for_verified_enclave: the credential key id, the wallet ciphertext, the seed ciphertext.
abbrev pub SecretProvider : Type 0 → Type 0
SecretProvider World =
    VerifiedEnclave → Text → Text → Text → Io World BrokerError WrappedEnclaveSecrets

-- The HTTP clients of the providers and of the engine are a parameter of their calls.
pub record VaultTransitProvider : Type 0 where
  pub address : Text
  pub token : Text
  pub transit_key : Text

pub record HttpsKmsProvider : Type 0 where
  pub endpoint : Text
  pub bearer_token : Option Text

pub record ProvisioningDataKeyResponse : Type 0 where
  pub wallet_ciphertext : Text
  pub encrypted_wallet_key_for_enclave : Text
  pub seed_ciphertext : Text
  pub encrypted_master_seed_for_enclave : Text

pub record VaultDatakeyEngine : Type 0 where
  pub vault_addr : Text
  pub vault_token : Text
  pub secret_key_name : Text

pub record AppState (World : Type 0) : Type 0 where
  pub pccs_url : Text
  pub expected_mrenclave : Text
  pub expected_mrsigner : Text
  pub kms : SecretProvider World
  pub datakey_engine : Option VaultDatakeyEngine

pub record ApiError : Type 0 where
  pub status : ℕ
  pub error : Text
