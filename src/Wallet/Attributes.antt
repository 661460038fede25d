-- ===== src/Wallet/Attributes.antt =====
-- dzta-wallet/src/lib.rs: what extract_proofable_fields reads from a credential.
use dzta.Prelude.{ok, ok_or, ◌>>=◌, Option, none, some, utf8, String}
use dzta.Errors.{WalletError, WalletResult, invalid_witness}
use dzta.Interfaces.Json.{Json}
use dzta.Fabric.Models.{CredentialAttributes}

abbrev missing : String → WalletError
missing message = invalid_witness (utf8 message)

module _ {Value : Type 0} (json : Json Value) where
  -- `subject.get(name).and_then(read)`
  abbrev read_field : {A : Type 0} → (Value → Option A) → Value → String → Option A
  read_field read subject name = elim (json.get subject (utf8 name)) [
    | none ↦ none
    | some v ↦ read v
  ]

  unfoldable pub proofable_fields_of : Value → WalletResult CredentialAttributes
  proofable_fields_of credential = do
    subject ←
        ok_or (json.get credential (utf8 "credentialSubject")) (missing "Missing credentialSubject")
    user_role_id ←
        ok_or (read_field json.as_str subject "userRoleId") (missing "Missing userRoleId")
    org_id ← ok_or (read_field json.as_str subject "orgId") (missing "Missing orgId")
    clearance_level ←
        ok_or (read_field json.as_u64 subject "clearanceLevel") (missing "Missing clearanceLevel")
    timestamp ← ok_or (read_field json.as_i64 subject "timestamp") (missing "Missing timestamp")
    ok (record {
      user_role_id = user_role_id;
      org_id = org_id;
      clearance_level = clearance_level;
      timestamp = timestamp;
    })
