-- ===== src/Shared/Subject/Parse.antt =====
-- When unsealing and parsing succeed.
use dzta.Prelude.{arith, ℕ, ◌≡◌, Text, Result, ok, err, Option, some, ◌∷◌, utf8, All}
use dzta.Interfaces.Json.{Json}
use dzta.Shared.Subject.{
  DecryptedCredentialSubject, EnclaveIngestionPayload, xor_cycle, parse_w3c_subject,
  parse_credential_subject, unseal_credential_subject,
}
use dzta.Shared.Subject.Xor.{IsByte, xor_cycle_twice}

-- A subject that was sealed by XOR is unsealed by its key, provided that the sealed bytes do not
-- themselves parse as a subject.
pub unseal_credential_subject-xor :
    (subject_from_slice : Text → Result Text DecryptedCredentialSubject)
    (payload : EnclaveIngestionPayload) (k : ℕ) (ks record_bytes e : Text)
    (subject : DecryptedCredentialSubject)
    → payload.wallet_db_key ≡ some (k ∷ ks)
    → payload.raw_wallet_ciphertext ≡ xor_cycle record_bytes (k ∷ ks)
    → IsByte k
    → All IsByte ks
    → All IsByte record_bytes
    → subject_from_slice record_bytes ≡ ok subject
    → subject_from_slice (xor_cycle record_bytes (k ∷ ks)) ≡ err e
    → unseal_credential_subject subject_from_slice payload ≡ ok subject
unfolding unseal_credential_subject
unseal_credential_subject-xor sfs payload k ks bytes e subject hk hr bk bks bb parsed refused =
    rw (hk, hr, refused, xor_cycle_twice k ks bytes bk bks bb, parsed)

-- What a W3C record holds, as parse_w3c_subject reads it.
pub record W3cSubject {Value : Type 0} (json : Json Value) (raw : Text)
    (credential_id : Option Text) (subject : DecryptedCredentialSubject) : Type 0 where
  pub value : Value
  pub subject_value : Value
  pub id_value : Value
  pub role_value : Value
  pub level_value : Value
  pub parsed : json.from_slice raw ≡ ok value
  pub has_subject : json.get value (utf8 "credentialSubject") ≡ some subject_value
  pub has_id : json.get subject_value (utf8 "id") ≡ some id_value
  pub did : json.as_str id_value ≡ some subject.subject_did
  pub has_role : json.get subject_value (utf8 "userRoleId") ≡ some role_value
  pub role : json.as_str role_value ≡ some subject.user_role_scalar
  pub has_level : json.get subject_value (utf8 "clearanceLevel") ≡ some level_value
  pub level : json.as_u64 level_value ≡ some subject.user_clearance_level
  pub given_id : credential_id ≡ some subject.credential_id

module _ {Value : Type 0} (json : Json Value)
    (subject_from_slice : Text → Result Text DecryptedCredentialSubject) where
  -- A record that is no bare subject is parsed as the W3C credential that it holds, under the
  -- credential id that the caller gives.
  pub parse_credential_subject-w3c :
      (raw e : Text) (credential_id : Option Text) (subject : DecryptedCredentialSubject)
      → subject_from_slice raw ≡ err e
      → W3cSubject json raw credential_id subject
      → parse_credential_subject json subject_from_slice raw credential_id ≡ ok subject
  unfolding parse_credential_subject parse_w3c_subject
  parse_credential_subject-w3c raw e credential_id subject refused w = ground arith
