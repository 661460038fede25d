-- ===== src/Fabric/Client/Ledger/Mock.antt =====
-- The client in its mock mode.
use dzta.Prelude.{◌≡◌, refl, Text, ok, none, Bool, true, false, List, [], ◌∷◌, map, utf8, trim}
use dzta.Prelude.Int.{ℤ, pos, negsuc, ◌+ℤ◌, ≤ℤ-add}
use dzta.Errors.{WalletError}
use dzta.Interfaces.Host.{FileSystem, Environment, Clock}
use dzta.Interfaces.FabricSdk.{FabricSdk}
use dzta.Interfaces.Json.{Json, JsonBuilders}
use dzta.Fabric.Models.{CredentialMetadata}
use dzta.Fabric.Ledger.Active.{verify_credential_active_iff}
use dzta.Fabric.Client.{FabricClient}
use dzta.Fabric.Client.Chaincode.{query_chaincode, mock_json, mock_metadata}
use dzta.Fabric.Client.Ledger.{
  LedgerReaders, invocation_of, client_verify_active, get_credential_metadata,
  is_credential_revoked,
}

-- The fields of a credential's metadata as a JSON object.
abbrev pub metadata_object :
    {Value : Type 0}
    → Json Value
    → JsonBuilders Value
    → Text
    → Text
    → Text
    → Text
    → ℤ
    → ℤ
    → List Text
    → Value
metadata_object json builders credential_id schema_id issuer_did subject_did issued_at expires_at
      fields =
    json.object (
      (utf8 "credential_id", json.string credential_id)
      ∷ (utf8 "schema_id", json.string schema_id)
      ∷ (utf8 "issuer_did", json.string issuer_did)
      ∷ (utf8 "subject_did", json.string subject_did)
      ∷ (utf8 "issued_at", json.number_i64 issued_at)
      ∷ (utf8 "expires_at", json.number_i64 expires_at)
      ∷ (utf8 "revoked", builders.bool false)
      ∷ (utf8 "revoked_at", builders.null)
      ∷ (utf8 "zkp_supported", builders.bool true)
      ∷ (utf8 "proofable_fields", builders.array (map json.string fields))
      ∷ [])

-- What serde documents of the values that are written and read: a value can always be written, and a
-- Boolean and the metadata are read back from what was written of them.
pub record MetadataLaws {Value : Type 0} (json : Json Value) (builders : JsonBuilders Value)
    (readers : LedgerReaders) : Type 0 where
  pub writes : (v : Value) → (bytes : Text) × (builders.to_vec v ≡ ok bytes)
  pub reads_bool :
      (b : Bool) (bytes : Text)
      → builders.to_vec (builders.bool b) ≡ ok bytes
      → readers.revoked bytes ≡ ok b
  pub reads_metadata :
      (credential_id schema_id issuer_did subject_did : Text) (issued_at expires_at : ℤ)
      (fields : List Text) (bytes : Text)
      → builders.to_vec (
          metadata_object json builders credential_id schema_id issuer_did subject_did issued_at
            expires_at fields)
        ≡ ok bytes
      → readers.credential_metadata bytes
        ≡ ok (record {
          credential_id = credential_id;
          schema_id = schema_id;
          issuer_did = issuer_did;
          subject_did = subject_did;
          issued_at = issued_at;
          expires_at = expires_at;
          revoked = false;
          revoked_at = none;
          zkp_supported = true;
          proofable_fields = fields;
        })

module _ {World Value : Type 0} (fs : FileSystem World) (env : Environment World)
    (clock : Clock World) (sdk : FabricSdk World) (json : Json Value)
    (builders : JsonBuilders Value) (readers : LedgerReaders)
    (laws : MetadataLaws json builders readers) (debug : WalletError → Text) (client : FabricClient)
    (mock : client.is_mock ≡ true) where
  mock_json-revoked :
      (id : Text) (now : ℤ)
      → mock_json fs env clock sdk json builders (invocation_of "IsCredentialRevoked" (id ∷ [])) now
        ≡ builders.bool false
  unfolding mock_json trim utf8
  mock_json-revoked id now = refl

  mock_json-metadata :
      (id : Text) (now : ℤ)
      → mock_json fs env clock sdk json builders
          (invocation_of "GetCredentialMetadata" (id ∷ []))
          now
        ≡ mock_metadata fs env clock sdk json builders id now
  unfolding mock_json trim utf8
  mock_json-metadata id now = refl

  not_revoked :
      (id : Text) (world : World)
      → is_credential_revoked fs env clock sdk json builders readers debug client id world
        ≡ (ok false, world)
  unfolding is_credential_revoked query_chaincode
  not_revoked id world =
      let (bytes, written) = laws.writes (builders.bool false) in
      rw
        (mock, mock_json-revoked id (clock.now world), written, laws.reads_bool false bytes written)
        refl

  abbrev answered : Text → ℤ → CredentialMetadata
  answered id now = record {
    credential_id = id;
    schema_id = utf8 "mock-schema-id";
    issuer_did = utf8 "did:example:issuer";
    subject_did = utf8 "did:example:subject";
    issued_at = now +ℤ negsuc 3599;
    expires_at = now +ℤ pos 31536000;
    revoked = false;
    revoked_at = none;
    zkp_supported = true;
    proofable_fields =
        utf8 "user_role_id" ∷ utf8 "org_id" ∷ utf8 "clearance_level" ∷ utf8 "timestamp" ∷ [];
  }

  metadata_found :
      (id : Text) (world : World)
      → get_credential_metadata fs env clock sdk json builders readers debug client id world
        ≡ (ok (answered id (clock.now world)), world)
  unfolding get_credential_metadata query_chaincode mock_metadata
  metadata_found id world =
      let (bytes, written) =
        laws.writes (mock_metadata fs env clock sdk json builders id (clock.now world)) in
      let answer = answered id (clock.now world) in
      let read : readers.credential_metadata bytes ≡ ok answer =
        laws.reads_metadata id answer.schema_id answer.issuer_did answer.subject_did
          answer.issued_at answer.expires_at answer.proofable_fields bytes written in
      rw (mock, mock_json-metadata id (clock.now world), written, read) refl

  -- In the mock mode every credential counts as active at once, and nothing is asked of the network,
  -- where a value that is written as JSON is read back.
  pub client_verify_active-mock :
      (credential_id : Text) (world : World)
      → client_verify_active fs env clock sdk json builders readers debug client credential_id world
        ≡ (ok true, world)
  unfolding client_verify_active
  client_verify_active-mock credential_id world =
      (verify_credential_active_iff clock _ credential_id world world true).1 (
        record {
          between = world;
          metadata = answered credential_id (clock.now world);
          not_revoked = not_revoked credential_id world;
          found = metadata_found credential_id world;
          in_time = ≤ℤ-add (clock.now world) 31536000;
        },
        refl,
      )
