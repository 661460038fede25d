-- ===== src/Fabric/Payload.antt =====
-- fabric-client/src/credential_manager.rs: the JSON of a credential, written and read.
pub mod RoundTrip
use dzta.Prelude.{
  ℕ, Text, Result, ok, ok_or, ◌>>=◌, ◌++◌, Option, none, some, List, [], ◌∷◌, utf8, String,
}
use dzta.Errors.{WalletError, invalid_witness}
use dzta.Interfaces.Json.{Json, JsonBuilders}
use dzta.Fabric.Models.{CredentialAttributes}

-- An error that is returned, or the panic of an `unwrap`.
pub data Abort : Type 0 where
  refused : WalletError → Abort
  panicked : Abort

abbrev pub unwrap : {A : Type 0} → Option A → Result Abort A
unwrap o = ok_or o panicked

abbrev missing : String → Abort
missing message = refused (invalid_witness (utf8 message))

module _ {Value : Type 0} (json : Json Value) (builders : JsonBuilders Value) where
  open json use {object, string, number_u64, number_i64, get, as_str, as_u64, as_i64}
  open builders use {array}

  unfoldable pub subject_payload : Text → CredentialAttributes → Value
  subject_payload subject_did attributes = object (
      (utf8 "id", string subject_did)
      ∷ (utf8 "userRoleId", string attributes.user_role_id)
      ∷ (utf8 "orgId", string attributes.org_id)
      ∷ (utf8 "clearanceLevel", number_u64 attributes.clearance_level)
      ∷ (utf8 "timestamp", number_i64 attributes.timestamp)
      ∷ [])

  -- The credential of an issuer and a subject, with its two dates.
  unfoldable pub verifiable_credential : Text → Text → Text → Value → Value
  verifiable_credential issuer_did issued expires payload = object (
      (
        utf8 "@context",
        array (
            string (utf8 "https://www.w3.org/2018/credentials/v1")
            ∷ string (utf8 "https://www.w3.org/2018/credentials/examples/v1")
            ∷ []),
      )
      ∷ (utf8 "type", array (string (utf8 "VerifiableCredential") ∷ []))
      ∷ (utf8 "issuer", string issuer_did)
      ∷ (utf8 "issuanceDate", string issued)
      ∷ (utf8 "expirationDate", string expires)
      ∷ (utf8 "credentialSubject", payload)
      ∷ (
        utf8 "proof",
        object (
            (utf8 "type", string (utf8 "Ed25519Signature2018"))
            ∷ (utf8 "verificationMethod", string (issuer_did ++ utf8 "#key-1"))
            ∷ (utf8 "signatureValue", string (utf8 "placeholder_signature"))
            ∷ []),
      )
      ∷ [])

  -- `subject.get(name).and_then(read).ok_or_else(…)`
  abbrev field_of : {A : Type 0} → (Value → Option A) → String → Value → String → Result Abort A
  field_of read name subject message =
      ok_or (elim (get subject (utf8 name)) [ none ↦ none | some v ↦ read v ]) (missing message)

  -- The part of extract_proofable_fields after the credential was fetched.
  unfoldable pub attributes_of : Value → Result Abort CredentialAttributes
  attributes_of credential_data = do
    subject ←
        ok_or (get credential_data (utf8 "credentialSubject")) (missing "Missing credentialSubject")
    user_role_id ← field_of as_str "userRoleId" subject "Missing userRoleId"
    org_id ← field_of as_str "orgId" subject "Missing orgId"
    clearance_level ← field_of as_u64 "clearanceLevel" subject "Missing clearanceLevel"
    timestamp ← field_of as_i64 "timestamp" subject "Missing timestamp"
    ok (record {
      user_role_id = user_role_id;
      org_id = org_id;
      clearance_level = clearance_level;
      timestamp = timestamp;
    })
