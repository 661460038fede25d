-- ===== src/Fabric/Models.antt =====
-- shared/src/models.rs: what the ledger and the wallets store. A DateTime<Utc> is its timestamp in
-- seconds, which is what its serialisation keeps.
use dzta.Prelude.{ℕ, Text, Option, Bool, List, [], ◌∷◌, utf8}
use dzta.Prelude.Int.{ℤ}
use dzta.Interfaces.Json.{Json}
use dzta.Schema.{SchemaAttribute}

pub record StoredCredential (Value : Type 0) : Type 0 where
  pub credential_id : Text
  pub schema_id : Text
  pub issuer_did : Text
  pub subject_did : Text
  pub credential_data : Value
  pub issued_at : ℤ
  pub expires_at : Option ℤ
  pub stored_in_askar : Bool

pub record CredentialAttributes : Type 0 where
  pub user_role_id : Text
  pub org_id : Text
  pub clearance_level : ℕ
  pub timestamp : ℤ

pub record VerificationMethod : Type 0 where
  pub id : Text
  pub method_type : Text
  pub controller : Text
  pub public_key_multibase : Text

pub record DidDocument : Type 0 where
  pub context : List Text
  pub did : Text
  pub issuer_did : Text
  pub public_key : Text
  pub verification_method : List VerificationMethod
  pub authentication : List Text
  pub assertion_method : List Text
  pub created : ℤ
  pub updated : ℤ
  pub active : Bool

pub record CredentialMetadata : Type 0 where
  pub credential_id : Text
  pub schema_id : Text
  pub issuer_did : Text
  pub subject_did : Text
  pub issued_at : ℤ
  pub expires_at : ℤ
  pub revoked : Bool
  pub revoked_at : Option ℤ
  pub zkp_supported : Bool
  pub proofable_fields : List Text

pub record CredentialSchema : Type 0 where
  pub schema_id : Text
  pub issuer_did : Text
  pub name : Text
  pub version : Text
  pub attributes : List SchemaAttribute
  pub created : ℤ

pub record ZkpWitness : Type 0 where
  pub credential_id : Text
  pub subject_did : Text
  pub user_role_id : Text
  pub clearance_level : ℕ

pub to_circom_input : {Value : Type 0} → Json Value → ZkpWitness → Value
to_circom_input json witness = json.object (
    (utf8 "credentialId", json.string witness.credential_id)
    ∷ (utf8 "subjectDid", json.string witness.subject_did)
    ∷ (utf8 "userRoleId", json.string witness.user_role_id)
    ∷ (utf8 "clearanceLevel", json.number_u64 witness.clearance_level)
    ∷ [])

pub record ChaincodeInvocation : Type 0 where
  pub function : Text
  pub args : List Text

pub record IssuedCredential (Value : Type 0) : Type 0 where
  pub credential_id : Text
  pub schema_id : Text
  pub issuer_did : Text
  pub subject_did : Text
  pub credential_data : Value
  pub issued_at : ℤ
  pub expires_at : Option ℤ
