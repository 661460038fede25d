-- ===== src/Fabric/Client/Chaincode.antt =====
-- invoke_chaincode and query_chaincode of fabric-client/src/fabric_client.rs.
pub mod Proposed
pub mod Committed
use dzta.Prelude.{
  ℕ, Text, Result, ok, err, map_err, ◌++◌, Option, none, some, Bool, true, false, List, [], ◌∷◌,
  utf8, text_eq, trim, String, if◌then◌else◌,
}
use dzta.Prelude.Int.{ℤ, pos, negsuc, ◌+ℤ◌}
use dzta.Errors.{
  WalletError, WalletResult, config_error, chaincode_failed, network_error, serialization_error,
  transaction_timeout,
}
use dzta.Effects.{Io, lift, map_failure, and_then, ◌>>=◌}
use dzta.Interfaces.Host.{FileSystem, Environment, Clock}
use dzta.Interfaces.FabricSdk.{FabricSdk}
use dzta.Interfaces.Json.{Json, JsonBuilders}
use dzta.Fabric.Config.Getters.{get_user_context, first}
use dzta.Fabric.Config.UserContext.{UserContext}
use dzta.Fabric.Models.{ChaincodeInvocation}
use dzta.Fabric.Client.{FabricClient, unwrap_or}
use dzta.Fabric.Client.Identity.{
  step, build_sdk_identity, connect_gateway_client, build_tls_gateway_client, target_peer,
}
use dzta.Fabric.Client.Commit.{wait_for_transaction_commit}

abbrev chaincode_failure : String → Text → WalletError
chaincode_failure message e = chaincode_failed (utf8 message ++ e)

module _ {World : Type 0} (fs : FileSystem World) (env : Environment World) (clock : Clock World)
    (sdk : FabricSdk World) where
  open sdk use {
    Identity, Client, Prepared, get_chaincode_call_builder, with_channel_name, with_chaincode_id,
    with_function_name, with_system_chaincode, with_function_args, build_prepared, tx_id_of,
    endorse, evaluate, payload, set_signature, sign_message, submit,
  }

  abbrev pub load_user_context : FabricClient → WalletResult UserContext
  load_user_context client =
      map_err (λ _. config_error (utf8 "Failed to load active user cryptographic contexts"))
        (get_user_context client.config)

  -- The steps of the call builder, up to the signed proposal.
  unfoldable pub prepare :
      String → FabricClient → Client → ChaincodeInvocation → Io World WalletError Prepared
  prepare message client sdk_client invocation = do
    channelled ←
        step "Invalid channel assignment: "
          (with_channel_name (get_chaincode_call_builder sdk_client) client.channel_name)
    addressed ←
        step "Invalid chaincode execution identifier: "
          (with_chaincode_id channelled client.chaincode_name)
    named ←
        step "Invalid function endpoint layout: " (with_function_name addressed invocation.function)
    filled ←
        step "Failed to inject transaction string payloads: "
          (with_function_args (with_system_chaincode named) invocation.args)
    (λ world. map_failure (chaincode_failure message) (build_prepared filled world))

  -- The wait of 30 seconds at the end of an invocation. That it returns is a theorem, so the error for
  -- the case that its rounds are used up is never seen.
  unfoldable pub await_commit : FabricClient → Client → Text → Io World WalletError (Unit {0})
  await_commit client sdk_client tx_id world =
      elim (wait_for_transaction_commit clock sdk client sdk_client tx_id 30 world) [
        | none ↦ (err transaction_timeout, world)
        | some done ↦ done
      ]

  -- The steps from the endorsement on. `debug` is WalletError's Debug.
  unfoldable pub submit_prepared :
      (WalletError → Text)
      → FabricClient
      → UserContext
      → Identity
      → Client
      → Prepared
      → Io World WalletError Text
  submit_prepared debug client user_context identity sdk_client prepared_tx = do
    let tx_id = unwrap_or (tx_id_of prepared_tx) []
    unsigned_envelope ← (λ world.
        map_failure (chaincode_failure "Ledger transaction signature execution rejected: ")
          (endorse prepared_tx sdk_client world))
    let envelope =
        set_signature (sign_message identity (payload unsigned_envelope)) unsigned_envelope
    gateway_client ← (λ world.
        map_failure (λ e. network_error (utf8 "Failed to build TLS Gateway client: " ++ debug e))
          (build_tls_gateway_client fs sdk env client user_context world))
    _ ← (λ world.
        map_failure (chaincode_failure "Gateway transaction submission failed: ")
          (submit gateway_client tx_id client.channel_name envelope world))
    _ ← await_commit client sdk_client tx_id
    lift (ok tx_id)

  unfoldable pub submit_transaction :
      (WalletError → Text) → FabricClient → ChaincodeInvocation → Io World WalletError Text
  submit_transaction debug client invocation = do
    user_context ← lift (load_user_context client)
    identity ← build_sdk_identity fs sdk client user_context
    sdk_client ← connect_gateway_client fs sdk client identity client.config target_peer
    prepared_tx ←
        prepare "Failed to construct prepared execution payload: " client sdk_client invocation
    submit_prepared debug client user_context identity sdk_client prepared_tx

  unfoldable pub invoke_chaincode :
      (WalletError → Text) → FabricClient → ChaincodeInvocation → Io World WalletError Text
  invoke_chaincode debug client invocation world = elim client.is_mock [
    | true ↦ (ok (utf8 "Mock transaction submitted: " ++ invocation.function), world)
    | false ↦ submit_transaction debug client invocation world
  ]

  unfoldable pub evaluate_query : FabricClient → ChaincodeInvocation → Io World WalletError Text
  evaluate_query client invocation = do
    user_context ← lift (load_user_context client)
    identity ← build_sdk_identity fs sdk client user_context
    sdk_client ← connect_gateway_client fs sdk client identity client.config target_peer
    prepared_tx ←
        prepare "Failed to compile evaluate transaction details: " client sdk_client invocation
    (λ world.
        map_failure (chaincode_failure "Gateway query payload transaction execution failure: ")
          (evaluate prepared_tx sdk_client world))

  module _ {Value : Type 0} (json : Json Value) (builders : JsonBuilders Value) where
    open json use {object, string, number_i64}
    open builders use {bool, null, array, to_vec}

    -- The metadata that the mock mode answers for an id at a time. The two sums stay in an i64 for every
    -- time that chrono represents.
    unfoldable pub mock_metadata : Text → ℤ → Value
    mock_metadata credential_id now = object (
        (utf8 "credential_id", string credential_id)
        ∷ (utf8 "schema_id", string (utf8 "mock-schema-id"))
        ∷ (utf8 "issuer_did", string (utf8 "did:example:issuer"))
        ∷ (utf8 "subject_did", string (utf8 "did:example:subject"))
        ∷ (utf8 "issued_at", number_i64 (now +ℤ negsuc 3599))
        ∷ (utf8 "expires_at", number_i64 (now +ℤ pos 31536000))
        ∷ (utf8 "revoked", bool false)
        ∷ (utf8 "revoked_at", null)
        ∷ (utf8 "zkp_supported", bool true)
        ∷ (
          utf8 "proofable_fields",
          array (
              string (utf8 "user_role_id")
              ∷ string (utf8 "org_id")
              ∷ string (utf8 "clearance_level")
              ∷ string (utf8 "timestamp")
              ∷ []),
        )
        ∷ [])

    mock_schema : Text → Value
    mock_schema schema_id = object (
        (utf8 "schema_id", string schema_id)
        ∷ (utf8 "issuer_did", string (utf8 "did:example:issuer"))
        ∷ (utf8 "name", string (utf8 "TestSchema"))
        ∷ (utf8 "version", string (utf8 "1.0.0"))
        ∷ (utf8 "attributes", array [])
        ∷ [])

    mock_did_document : Text → Value
    mock_did_document did = object (
        (utf8 "id", string did)
        ∷ (utf8 "public_key", string (utf8 "placeholder_pubkey"))
        ∷ (utf8 "authentication", array (string (utf8 "key-1") ∷ []))
        ∷ [])

    -- The `match` on the function of a mock query, at the time of the clock.
    unfoldable pub mock_json : ChaincodeInvocation → ℤ → Value
    unfolding mock_metadata mock_schema mock_did_document trim
    mock_json invocation now =
        let function = trim invocation.function in
        let argument = unwrap_or (first invocation.args) [] in
        if text_eq function (utf8 "GetCredentialMetadata")
        then mock_metadata argument now
        else if text_eq function (utf8 "IsCredentialRevoked")
        then bool false
        else if text_eq function (utf8 "GetSchema")
        then mock_schema argument
        else if text_eq function (utf8 "ResolveDID")
        then mock_did_document argument
        else bool false

    unfoldable pub query_chaincode : FabricClient → ChaincodeInvocation → Io World WalletError Text
    query_chaincode client invocation world = elim client.is_mock [
      | true ↦
          (map_err serialization_error (to_vec (mock_json invocation (clock.now world))), world)
      | false ↦ evaluate_query client invocation world
    ]
