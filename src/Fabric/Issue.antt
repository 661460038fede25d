-- ===== src/Fabric/Issue.antt =====
-- fabric-client/src/credential_manager.rs: the manager's operations that also call the ledger.
pub mod Issued
pub mod Extracted
pub mod Sample
mod Examples
use dzta.Prelude.{
  ℕ, Text, Result, ok, err, ok_or, ◌++◌, Option, none, some, Bool, true, List, [], ◌∷◌, utf8,
  String,
}
use dzta.Prelude.Int.{ℤ}
use dzta.Errors.{WalletError, WalletResult, invalid_witness}
use dzta.Effects.{Io, lift, map_failure, ◌>>=◌}
use dzta.Interfaces.Host.{Clock}
use dzta.Interfaces.Crypto.{Sha256, Aes256Gcm}
use dzta.Interfaces.Json.{Json, JsonBuilders}
use dzta.Interfaces.Askar.{Askar, Random}
use dzta.Schema.{SchemaAttribute, validate_fields}
use dzta.Fabric.Models.{CredentialAttributes, StoredCredential, CredentialSchema}
use dzta.Fabric.Ledger.{Ledger}
use dzta.Fabric.Payload.{
  Abort, refused, unwrap, subject_payload, verifiable_credential, attributes_of,
}
use dzta.Fabric.Credentials.{
  CredentialManager, retrieve_credential, store_credential, mark_credential_revoked,
}

-- uuid::Uuid::new_v4, and chrono's DateTime::from_timestamp and to_rfc3339. A date is its timestamp.
pub record Uuids (World : Type 0) : Type 0 where
  pub new_v4 : World → Text × World

pub record Dates : Type 0 where
  pub from_timestamp : ℤ → Option ℤ
  pub to_rfc3339 : ℤ → Text
  pub is_rfc3339 : Text → Bool

-- A call whose error is returned.
abbrev pub returning : {World A : Type 0} → Io World WalletError A → Io World Abort A
returning action world = map_failure refused (action world)

module _ {Value : Type 0} (json : Json Value) (builders : JsonBuilders Value) where
  module _ {World Crypter : Type 0} (askar : Askar World) (clock : Clock World)
      (random : Random World) (uuids : Uuids World) (dates : Dates) (sha : Sha256)
      (aes : Aes256Gcm Crypter) (display : WalletError → Text) (ledger : Ledger World)
      (manager : CredentialManager askar) where
    unfoldable pub get_schema : Text → Io World WalletError CredentialSchema
    get_schema schema_id = ledger.get_schema schema_id

    abbrev new_id : Io World Abort Text
    new_id world = let (id, after) = uuids.new_v4 world in (ok id, after)

    -- The second half of create_credential, for a credential that was built.
    unfoldable pub save_credential :
        Text → Text → Text → Text → ℤ → Value → Io World Abort (StoredCredential Value)
    save_credential credential_id schema_id issuer_did subject_did expires_at_unix vc = do
      _ ←
          returning
            (store_credential askar sha aes json display clock random manager credential_id vc)
      _ ← returning (
          ledger.record_credential_metadata credential_id schema_id issuer_did subject_did
            expires_at_unix)
      (λ world. (
        ok (record {
          credential_id = credential_id;
          schema_id = schema_id;
          issuer_did = issuer_did;
          subject_did = subject_did;
          credential_data = vc;
          issued_at = clock.now world;
          expires_at = dates.from_timestamp expires_at_unix;
          stored_in_askar = true;
        }),
        world,
      ))

    unfoldable pub create_credential :
        Text → Text → Text → CredentialAttributes → ℤ → Io World Abort (StoredCredential Value)
    create_credential schema_id issuer_did subject_did credential_attributes expires_at_unix = do
      credential_id ← new_id
      schema ← returning (get_schema schema_id)
      let payload = subject_payload json builders subject_did credential_attributes
      _ ← returning (lift (validate_fields json dates.is_rfc3339 schema.attributes payload))
      expires ← lift (unwrap (dates.from_timestamp expires_at_unix))
      (λ world.
          save_credential credential_id schema_id issuer_did subject_did expires_at_unix
            (verifiable_credential json builders issuer_did (clock.now_rfc3339 world)
              (dates.to_rfc3339 expires) payload)
            world)

    unfoldable pub get_credential : Text → Io World Abort (StoredCredential Value)
    get_credential credential_id = do
      vc_data ← returning (retrieve_credential askar sha aes json display manager credential_id)
      metadata ← returning (ledger.get_credential_metadata credential_id)
      issued_at ← lift (unwrap (dates.from_timestamp metadata.issued_at))
      lift (
          ok (record {
            credential_id = metadata.credential_id;
            schema_id = metadata.schema_id;
            issuer_did = metadata.issuer_did;
            subject_did = metadata.subject_did;
            credential_data = vc_data;
            issued_at = issued_at;
            expires_at = dates.from_timestamp metadata.expires_at;
            stored_in_askar = true;
          }))

    unfoldable pub extract_proofable_fields : Text → Io World Abort CredentialAttributes
    extract_proofable_fields credential_id = do
      credential ← get_credential credential_id
      lift (attributes_of json builders credential.credential_data)

    -- CredentialManager::revoke_credential: on the ledger first, then in the store.
    unfoldable pub revoke_everywhere : Text → Io World WalletError (Unit {0})
    revoke_everywhere credential_id = do
      _ ← ledger.revoke_credential credential_id
      mark_credential_revoked askar clock manager credential_id

    -- CredentialManager::register_schema
    pub register_new_schema : Text → Text → Text → List SchemaAttribute → Io World WalletError Text
    register_new_schema issuer_did name version attributes = do
      schema_id ← (λ world. let (id, after) = uuids.new_v4 world in (ok id, after))
      _ ← ledger.register_schema schema_id issuer_did name version attributes
      lift (ok schema_id)
