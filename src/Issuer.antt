-- ===== src/Issuer.antt =====
-- dzta-issuer/src/lib.rs: the issuer's workflow.
pub mod Signer
pub mod Vault
pub mod Issued
pub mod Verified
pub mod Agreement
mod Examples
use dzta.Prelude.{
  Text, Result, ok, map_err, ok_or, ◌++◌, Option, Bool, List, [], ◌∷◌, utf8, trim, is_empty, ◌||◌,
  HashMap,
}
use dzta.Prelude.Int.{ℤ, leb_ℤ}
use dzta.Errors.{WalletError, config_error, signing_error}
use dzta.Effects.{Io, lift, ◌>>=◌}
use dzta.Interfaces.Host.{Clock}
use dzta.Interfaces.Json.{Json, JsonBuilders}
use dzta.Schema.{SchemaAttribute, validate_fields}
use dzta.Fabric.Config.{forbid}
use dzta.Fabric.Models.{CredentialAttributes, IssuedCredential, DidDocument}
use dzta.Fabric.Ledger.{Ledger}
use dzta.Fabric.Payload.{subject_payload}
use dzta.Fabric.Issue.{Uuids, Dates}

-- The trait CredentialSignerBackend.
pub record CredentialSignerBackend (World : Type 0) : Type 0 where
  pub public_key_multibase : Io World WalletError Text
  pub sign : Text → Io World WalletError Text

-- The methods of `FabricClient` for DIDs.
pub record DidRegistry (World : Type 0) : Type 0 where
  pub register_did : Text → Text → Text → Io World WalletError Text
  pub resolve_did : Text → Io World WalletError DidDocument
  pub query_dids_by_issuer : Text → Io World WalletError (List DidDocument)

module _ {Value : Type 0} (json : Json Value) (builders : JsonBuilders Value) where
  open json use {object, string}
  open builders use {array}

  -- The fields of a credential without its proof.
  unfoldable pub credential_fields : Text → Text → Text → Value → HashMap Value
  credential_fields issuer_did issued expires subject =
      (
        utf8 "@context",
        array (
            string (utf8 "https://www.w3.org/2018/credentials/v1")
            ∷ string (utf8 "https://www.w3.org/2018/credentials/examples/v1")
            ∷ []),
      )
      ∷ (utf8 "type", array (string (utf8 "VerifiableCredential") ∷ []))
      ∷ (utf8 "issuer", string issuer_did)
      ∷ (utf8 "issuanceDate", string issued)
      ∷ (utf8 "expirationDate", string expires)
      ∷ (utf8 "credentialSubject", subject)
      ∷ []

  unfoldable pub proof_fields : Text → Text → HashMap Value
  proof_fields issuer_did issued =
      (utf8 "type", string (utf8 "DataIntegrityProof"))
      ∷ (utf8 "cryptosuite", string (utf8 "eddsa-jcs-2022"))
      ∷ (utf8 "created", string issued)
      ∷ (utf8 "proofPurpose", string (utf8 "assertionMethod"))
      ∷ (utf8 "verificationMethod", string (issuer_did ++ utf8 "#key-1"))
      ∷ []

  -- The value that is signed in its canonical form.
  unfoldable pub signing_value : HashMap Value → HashMap Value → Value
  signing_value credential proof =
      object ((utf8 "credential", object credential) ∷ (utf8 "proof", object proof) ∷ [])

  -- The credential with its proof, and the proof with its value.
  unfoldable pub with_proof : HashMap Value → HashMap Value → Text → Value
  with_proof credential proof signature = object (
      credential
      ++ (utf8 "proof", object (proof ++ (utf8 "proofValue", string signature) ∷ [])) ∷ [])

  -- `jcs` is serde_jcs::to_vec.
  module _ {World : Type 0} (jcs : Value → Result Text Text) (clock : Clock World)
      (uuids : Uuids World) (dates : Dates) (ledger : Ledger World) (registry : DidRegistry World)
      (signer : CredentialSignerBackend World) where
    unfoldable register_signing_did : Text → Io World WalletError Text
    register_signing_did issuer_did = do
      public_key ← signer.public_key_multibase
      registry.register_did issuer_did issuer_did public_key

    abbrev pub uuid : Io World WalletError Text
    uuid world = let (id, after) = uuids.new_v4 world in (ok id, after)

    unfoldable register_schema_as_issuer :
        Text → Text → Text → List SchemaAttribute → Io World WalletError Text
    register_schema_as_issuer issuer_did name version attributes = do
      schema_id ← uuid
      _ ← ledger.register_schema schema_id issuer_did name version attributes
      lift (ok schema_id)

    abbrev canonical : Value → Result WalletError Text
    canonical v = map_err (λ e. signing_error (utf8 "JCS canonicalization failed: " ++ e)) (jcs v)

    -- The second half of create_credential, from the signing on.
    unfoldable pub sign_and_record :
        Text
        → Text
        → Text
        → Text
        → ℤ
        → ℤ
        → ℤ
        → Value
        → Io World WalletError (IssuedCredential Value)
    sign_and_record credential_id schema_id issuer_did subject_did expires_at_unix issued_at
          expires_at subject =
        do
          let issued = dates.to_rfc3339 issued_at
          let credential = credential_fields issuer_did issued (dates.to_rfc3339 expires_at) subject
          let proof = proof_fields issuer_did issued
          signing_input ← lift (canonical (signing_value credential proof))
          signature ← signer.sign signing_input
          _ ←
              ledger.record_credential_metadata credential_id schema_id issuer_did subject_did
                expires_at_unix
          lift (
              ok (record {
                credential_id = credential_id;
                schema_id = schema_id;
                issuer_did = issuer_did;
                subject_did = subject_did;
                credential_data = with_proof credential proof signature;
                issued_at = issued_at;
                expires_at = Option.some expires_at;
              }))

    unfoldable pub issue_credential :
        Text
        → Text
        → Text
        → CredentialAttributes
        → ℤ
        → Io World WalletError (IssuedCredential Value)
    issue_credential schema_id issuer_did subject_did attributes expires_at_unix = do
      _ ← lift (
          forbid (is_empty (trim issuer_did) || is_empty (trim subject_did))
            (config_error (utf8 "Issuer DID and subject DID are required")))
      _ ← (λ world.
          lift
            (forbid (leb_ℤ expires_at_unix (clock.now world))
              (config_error (utf8 "Credential expiration must be in the future")))
            world)
      credential_id ← uuid
      schema ← ledger.get_schema schema_id
      let subject = subject_payload json builders subject_did attributes
      _ ← lift (validate_fields json dates.is_rfc3339 schema.attributes subject)
      issued_at ← (λ world. (ok (clock.now world), world))
      expires_at ← lift (
          ok_or (dates.from_timestamp expires_at_unix)
            (config_error (utf8 "Invalid expiration timestamp")))
      sign_and_record credential_id schema_id issuer_did subject_did expires_at_unix issued_at
          expires_at subject

    -- Issuer::revoke_credential
    unfoldable revoke_as_issuer : Text → Io World WalletError (Unit {0})
    revoke_as_issuer credential_id = do _ ← ledger.revoke_credential credential_id; lift (ok tt)
