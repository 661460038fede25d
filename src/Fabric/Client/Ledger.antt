-- ===== src/Fabric/Client/Ledger.antt =====
-- The methods of the client that call the chaincode's functions, and the client as a `Ledger`.
pub mod Mock
use dzta.Prelude.{
  ℕ, Text, Result, ok, map_err, ◌++◌, Bool, true, false, List, [], ◌∷◌, utf8, trim, is_empty, ◌||◌,
  String,
}
use dzta.Prelude.Int.{ℤ}
use dzta.Prelude.Patterns.{i64_to_string}
use dzta.Errors.{WalletError, config_error, serialization_error}
use dzta.Effects.{Io, lift, ◌>>=◌}
use dzta.Interfaces.Host.{FileSystem, Environment, Clock}
use dzta.Interfaces.FabricSdk.{FabricSdk}
use dzta.Interfaces.Json.{Json, JsonBuilders}
use dzta.Schema.{SchemaAttribute}
use dzta.Fabric.Config.{forbid}
use dzta.Fabric.Models.{ChaincodeInvocation, CredentialMetadata, CredentialSchema, DidDocument}
use dzta.Fabric.Ledger.{Ledger, verify_credential_active}
use dzta.Fabric.Client.{FabricClient}
use dzta.Fabric.Client.Chaincode.{invoke_chaincode, query_chaincode}

-- serde_json::from_slice at the types of the answers, and to_string of the attributes.
pub record LedgerReaders : Type 0 where
  pub did_document : Text → Result Text DidDocument
  pub did_documents : Text → Result Text (List DidDocument)
  pub credential_metadata : Text → Result Text CredentialMetadata
  pub credential_schema : Text → Result Text CredentialSchema
  pub revoked : Text → Result Text Bool
  pub attributes_to_string : List SchemaAttribute → Result Text Text

abbrev pub invocation_of : String → List Text → ChaincodeInvocation
invocation_of function args = record { function = utf8 function; args = args }

module _ {World Value : Type 0} (fs : FileSystem World) (env : Environment World)
    (clock : Clock World) (sdk : FabricSdk World) (json : Json Value)
    (builders : JsonBuilders Value) (readers : LedgerReaders) (debug : WalletError → Text)
    (client : FabricClient) where
  abbrev invoke : ChaincodeInvocation → Io World WalletError Text
  invoke invocation = invoke_chaincode fs env clock sdk debug client invocation

  -- A query, and the reading of what it answers.
  abbrev query :
      {A : Type 0} → (Text → Result Text A) → ChaincodeInvocation → Io World WalletError A
  query read invocation = do
    response ← query_chaincode fs env clock sdk json builders client invocation
    lift (map_err serialization_error (read response))

  unfoldable pub register_did : Text → Text → Text → Io World WalletError Text
  register_did did issuer_did public_key = do
    _ ← lift (
        forbid (is_empty (trim did) || is_empty (trim issuer_did) || is_empty (trim public_key))
          (config_error (utf8 "DID, issuer DID, and public key are required")))
    invoke (invocation_of "RegisterDID" (did ∷ issuer_did ∷ public_key ∷ []))

  pub resolve_did : Text → Io World WalletError DidDocument
  resolve_did did = query readers.did_document (invocation_of "ResolveDID" (did ∷ []))

  unfoldable pub record_credential_metadata :
      Text → Text → Text → Text → ℤ → Io World WalletError Text
  record_credential_metadata credential_id schema_id issuer_did subject_did expires_at = invoke (
      invocation_of "RecordCredentialMetadata"
        (credential_id ∷ schema_id ∷ issuer_did ∷ subject_did ∷ i64_to_string expires_at ∷ []))

  unfoldable pub get_credential_metadata : Text → Io World WalletError CredentialMetadata
  get_credential_metadata credential_id =
      query readers.credential_metadata (invocation_of "GetCredentialMetadata" (credential_id ∷ []))

  unfoldable pub is_credential_revoked : Text → Io World WalletError Bool
  is_credential_revoked credential_id =
      query readers.revoked (invocation_of "IsCredentialRevoked" (credential_id ∷ []))

  unfoldable pub revoke_credential : Text → Io World WalletError Text
  revoke_credential credential_id = invoke (invocation_of "RevokeCredential" (credential_id ∷ []))

  unfoldable pub register_schema :
      Text → Text → Text → Text → List SchemaAttribute → Io World WalletError Text
  register_schema schema_id issuer_did name version attributes = do
    attributes_json ← lift (map_err serialization_error (readers.attributes_to_string attributes))
    invoke (
        invocation_of "RegisterSchema"
          (schema_id ∷ issuer_did ∷ name ∷ version ∷ attributes_json ∷ []))

  unfoldable pub get_schema : Text → Io World WalletError CredentialSchema
  get_schema schema_id =
      query readers.credential_schema (invocation_of "GetSchema" (schema_id ∷ []))

  pub query_dids_by_issuer : Text → Io World WalletError (List DidDocument)
  query_dids_by_issuer issuer_did =
      query readers.did_documents (invocation_of "QueryDIDsByIssuer" (issuer_did ∷ []))

  abbrev pub fabric_ledger : Ledger World
  fabric_ledger = record {
    is_credential_revoked = is_credential_revoked;
    get_credential_metadata = get_credential_metadata;
    get_schema = get_schema;
    record_credential_metadata = record_credential_metadata;
    revoke_credential = revoke_credential;
    register_schema = register_schema;
  }

  -- FabricClient::verify_credential_active
  unfoldable pub client_verify_active : Text → Io World WalletError Bool
  client_verify_active credential_id = verify_credential_active clock fabric_ledger credential_id
