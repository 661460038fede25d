-- ===== src/Shared/Witness.antt =====
-- Unsealing a wallet record and deriving the circuit's witness: process_unsealed_witness and
-- unseal_and_derive_witness_with_credential_id of shared/src/zkp_core.rs.
pub mod Unseal
pub mod Agreement
use dzta.Prelude.{ℕ, Text, Result, ok, err, map_err, ◌>>=◌, ◌++◌, Option, none, utf8}
use dzta.Errors.{WalletResult}
use dzta.Interfaces.PrimeField.{PrimeField}
use dzta.Interfaces.Crypto.{Sha256, Aes256Gcm, BigUint}
use dzta.Interfaces.Json.{Json}
use dzta.Shared.WalletRecord.{failed, decrypt_wallet_record}
use dzta.Shared.Scalar.{string_to_scalar, derive_nullifier, compute_commitment}
use dzta.Shared.Subject.{DecryptedCredentialSubject, parse_credential_subject, xor_cycle}

pub record DerivedEnclaveWitness : Type 0 where
  pub clearance_level : ℕ
  pub user_role_scalar : Text
  pub secret_nullifier : Text
  pub public_commitment : Text

-- The tuple that process_unsealed_witness returns.
pub record FieldWitness (F : Type 0) : Type 0 where
  pub user_clearance : F
  pub role_scalar : F
  pub secret_nullifier : F
  pub req_clearance : F
  pub public_commitment : F
  pub nullifier_bytes : Text

module _ {F : Type 0} (sha : Sha256) (big : BigUint) (field : PrimeField F) where
  open big use {from_str_radix, to_bytes_le}
  open field use {from_u64, from_le_bytes_mod_order, mul}

  pub process_unsealed_witness :
      DecryptedCredentialSubject → Text → ℕ → WalletResult (FieldWitness F)
  process_unsealed_witness subject master_seed required_clearance = do
    let user_clearance_fr = from_u64 subject.user_clearance_level
    let req_clearance_fr = from_u64 required_clearance
    let normalized_role_str = string_to_scalar sha big subject.user_role_scalar
    role_biguint ←
        map_err (failed "Invalid role scalar radix: ") (from_str_radix normalized_role_str)
    let role_scalar_fr = from_le_bytes_mod_order (to_bytes_le role_biguint)
    let nullifier_bytes = derive_nullifier sha subject.subject_did subject.credential_id master_seed
    let nullifier_fr = from_le_bytes_mod_order nullifier_bytes
    ok (record {
      user_clearance = user_clearance_fr;
      role_scalar = role_scalar_fr;
      secret_nullifier = nullifier_fr;
      req_clearance = req_clearance_fr;
      public_commitment = mul (mul nullifier_fr user_clearance_fr) role_scalar_fr;
      nullifier_bytes = nullifier_bytes;
    })

  -- Steps 3 to 5 of the unsealing.
  unfoldable pub derive_witness : DecryptedCredentialSubject → Text → DerivedEnclaveWitness
  derive_witness subject master_seed =
      let secret_nullifier =
        derive_nullifier sha subject.subject_did subject.credential_id master_seed in
      record {
        clearance_level = subject.user_clearance_level;
        user_role_scalar = string_to_scalar sha big subject.user_role_scalar;
        secret_nullifier = secret_nullifier;
        public_commitment =
            compute_commitment sha big field secret_nullifier subject.user_clearance_level
              subject.user_role_scalar;
      }

module _ {F Crypter Value : Type 0} (sha : Sha256) (big : BigUint) (field : PrimeField F)
    (aes : Aes256Gcm Crypter) (json : Json Value)
    (subject_from_slice : Text → Result Text DecryptedCredentialSubject) where
  -- The decrypted record, or the record as it stands where decryption fails.
  cleartext_bytes : Text → Text → Text
  cleartext_bytes raw_ciphertext db_key =
      elim (decrypt_wallet_record sha aes raw_ciphertext db_key) [
        | ok cleartext ↦ cleartext
        | err _ ↦ raw_ciphertext
      ]

  -- The subject of the cleartext, or else of the XOR record of an older wallet.
  unsealed_subject : Text → Text → Option Text → WalletResult DecryptedCredentialSubject
  unfolding cleartext_bytes
  unsealed_subject raw_ciphertext db_key credential_id =
      elim (parse_credential_subject json subject_from_slice (cleartext_bytes raw_ciphertext db_key)
        credential_id) [
          | ok subject ↦ ok subject
          | err _ ↦
              map_err (failed "Failed to parse unsealed credential subject: ")
                (subject_from_slice (xor_cycle raw_ciphertext db_key))
        ]

  pub unseal_and_derive_witness_with_credential_id :
      Text → Text → Text → Option Text → WalletResult DerivedEnclaveWitness
  unfolding unsealed_subject
  unseal_and_derive_witness_with_credential_id raw_ciphertext db_key master_seed credential_id = do
    subject ← unsealed_subject raw_ciphertext db_key credential_id
    ok (derive_witness sha big field subject master_seed)

  pub unseal_and_derive_witness : Text → Text → Text → WalletResult DerivedEnclaveWitness
  unfolding unseal_and_derive_witness_with_credential_id
  unseal_and_derive_witness raw_ciphertext db_key master_seed =
      unseal_and_derive_witness_with_credential_id raw_ciphertext db_key master_seed none
