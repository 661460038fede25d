-- ===== src/Shared/Subject.antt =====
-- The credential subject inside the enclave: parse_credential_subject, unseal_credential_subject and
-- the XOR records of older wallets, of shared/src/zkp_core.rs.
pub mod Xor
pub mod Parse
use Prim.Native.Nat.{bit_xor}
use dzta.Prelude.{
  String, ℕ, Text, Result, ok, err, is_ok, map_err, ok_or, ◌>>=◌, ◌++◌, Option, none, some, List,
  [], ◌∷◌, utf8, Bool, is_empty, if◌then◌else◌, true,
}
use dzta.Errors.{WalletError, WalletResult, execution_failed}
use dzta.Interfaces.Json.{Json}
use dzta.Shared.WalletRecord.{failed}

pub record DecryptedCredentialSubject : Type 0 where
  pub user_clearance_level : ℕ
  pub user_role_scalar : Text
  pub subject_did : Text
  pub credential_id : Text

pub record EnclaveIngestionPayload : Type 0 where
  pub raw_wallet_ciphertext : Text
  pub wallet_db_key : Option Text
  pub credential_id : Option Text
  pub required_clearance_level : ℕ
  pub master_seed : Option Text

-- `raw.iter().zip(key.iter().cycle()).map(|(c, k)| c ^ k)`: the second argument is what the cycle has
-- left of the key.
xor_from : Text → Text → Text → Text
xor_from key rest [] = []
xor_from [] [] (c ∷ s) = []
xor_from (k ∷ ks) [] (c ∷ s) = bit_xor c k ∷ xor_from (k ∷ ks) ks s
xor_from key (r ∷ rest) (c ∷ s) = bit_xor c r ∷ xor_from key rest s

unfoldable pub xor_cycle : Text → Text → Text
unfolding xor_from
xor_cycle raw key = xor_from key key raw

abbrev message : String → WalletError
message m = execution_failed (utf8 m)

-- `subject_from_slice` is serde_json::from_slice at `DecryptedCredentialSubject`.
module _ {Value : Type 0} (json : Json Value)
    (subject_from_slice : Text → Result Text DecryptedCredentialSubject) where
  open json use {from_slice, get, as_str, as_u64}

  abbrev field_str : Value → Text → WalletError → WalletResult Text
  field_str subject name e = elim (get subject name) [ none ↦ err e | some v ↦ ok_or (as_str v) e ]

  -- The record as a W3C credential.
  pub parse_w3c_subject : Text → Option Text → WalletResult DecryptedCredentialSubject
  parse_w3c_subject raw_record credential_id = do
    value ← map_err (failed "Credential record is not valid JSON: ") (from_slice raw_record)
    subject_value ←
        ok_or (get value (utf8 "credentialSubject"))
          (message "Credential record has no credentialSubject")
    subject_did ← field_str subject_value (utf8 "id") (message "Credential subject has no id")
    user_role_scalar ←
        field_str subject_value (utf8 "userRoleId") (message "Credential subject has no userRoleId")
    level ←
        ok_or (get subject_value (utf8 "clearanceLevel"))
          (message "Credential subject has no clearanceLevel")
    user_clearance_level ← ok_or (as_u64 level) (message "Credential subject has no clearanceLevel")
    id ← ok_or credential_id (message "Credential ID is required for W3C credential records")
    ok (record {
      user_clearance_level = user_clearance_level;
      user_role_scalar = user_role_scalar;
      subject_did = subject_did;
      credential_id = id;
    })

  unfoldable pub parse_credential_subject :
      Text → Option Text → WalletResult DecryptedCredentialSubject
  parse_credential_subject raw_record credential_id = elim (subject_from_slice raw_record) [
    | ok subject ↦ ok subject
    | err _ ↦ parse_w3c_subject raw_record credential_id
  ]

-- The bytes that unseal_credential_subject parses: the record itself without a key, or if it already
-- parses, and else the record under the key's XOR.
cleartext_bytes : (Text → Result Text DecryptedCredentialSubject) → Text → Option Text → Text
cleartext_bytes subject_from_slice raw none = raw
cleartext_bytes subject_from_slice raw (some key) =
    if is_empty key then raw else if is_ok (subject_from_slice raw) then raw else xor_cycle raw key

pub unseal_credential_subject :
    (Text → Result Text DecryptedCredentialSubject)
    → EnclaveIngestionPayload
    → WalletResult DecryptedCredentialSubject
unfolding cleartext_bytes
unseal_credential_subject subject_from_slice payload =
    map_err (failed "Failed to parse credential subject: ") (
      subject_from_slice
        (cleartext_bytes subject_from_slice payload.raw_wallet_ciphertext payload.wallet_db_key))
