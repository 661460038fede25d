-- ===== src/Fabric/Client/Chaincode/Committed.antt =====
-- What a successful invocation of a chaincode has done.
use dzta.Prelude.{Text, ok, ok-injective, ◌≡◌, ap, ◌∙◌, false, [], Option-cases, inl, inr}
use mathlib.Core.Path.{subst}
use dzta.Errors.{WalletError}
use dzta.Effects.{and_then-eq-ok, map_failure, map_failure-eq-ok, lift_then-eq-ok}
use dzta.Interfaces.Host.{FileSystem, Environment, Clock}
use dzta.Interfaces.FabricSdk.{FabricSdk}
use dzta.Fabric.Models.{ChaincodeInvocation}
use dzta.Fabric.Config.UserContext.{UserContext}
use dzta.Fabric.Client.{FabricClient, unwrap_or}
use dzta.Fabric.Client.Identity.{
  build_sdk_identity, connect_gateway_client, build_tls_gateway_client, target_peer,
}
use dzta.Fabric.Client.Identity.Built.{Built, build_sdk_identity-Built}
use dzta.Fabric.Client.Chaincode.Proposed.{Proposed, prepare-Proposed}
use dzta.Fabric.Client.Commit.{wait_for_transaction_commit}
use dzta.Fabric.Client.Commit.Confirmed.{Confirmed, wait_for_transaction_commit-Confirmed}
use dzta.Fabric.Client.Chaincode.{
  load_user_context, prepare, await_commit, submit_prepared, submit_transaction, invoke_chaincode,
}

module _ {World : Type 0} (fs : FileSystem World) (env : Environment World) (clock : Clock World)
    (sdk : FabricSdk World) (client : FabricClient) (live : client.is_mock ≡ false) where
  -- The second half of a run, of a prepared transaction: what the peer endorsed was submitted on the
  -- client's channel, signed by the identity, and the peer confirmed it, in this order.
  pub record Submitted (debug : WalletError → Text) (user_context : UserContext)
      (identity : sdk.Identity) (sdk_client : sdk.Client) (prepared_tx : sdk.Prepared) (id : Text)
      (world last : World) : Type 0 where
    pub gateway : sdk.Gateway
    pub envelope : sdk.Envelope
    pub endorsed_in : World
    pub reached_in : World
    pub submitted_in : World
    pub names : unwrap_or (sdk.tx_id_of prepared_tx) [] ≡ id
    pub endorsed : sdk.endorse prepared_tx sdk_client world ≡ (ok envelope, endorsed_in)
    pub reached :
        build_tls_gateway_client fs sdk env client user_context endorsed_in
        ≡ (ok gateway, reached_in)
    pub submitted :
        sdk.submit gateway id client.channel_name
          (sdk.set_signature (sdk.sign_message identity (sdk.payload envelope)) envelope)
          reached_in
        ≡ (ok tt, submitted_in)
    pub awaited : await_commit fs env clock sdk client sdk_client id submitted_in ≡ (ok tt, last)
    pub confirmed : Confirmed sdk sdk_client id client.channel_name

  -- The run of an invocation that ended in `id`: the identity was built of the active user's
  -- certificate and key, the transaction was prepared for the invocation, and it was submitted.
  pub record Committed (debug : WalletError → Text) (invocation : ChaincodeInvocation) (id : Text)
      (world last : World) : Type 0 where
    pub user_context : UserContext
    pub identity : sdk.Identity
    pub sdk_client : sdk.Client
    pub prepared_tx : sdk.Prepared
    pub built_in : World
    pub connected_in : World
    pub prepared_in : World
    pub active : load_user_context fs env clock sdk client ≡ ok user_context
    pub own : Built fs sdk client user_context identity world built_in
    pub connected :
        connect_gateway_client fs sdk client identity client.config target_peer built_in
        ≡ (ok sdk_client, connected_in)
    pub proposed : Proposed sdk client sdk_client invocation prepared_tx connected_in prepared_in
    pub run : Submitted debug user_context identity sdk_client prepared_tx id prepared_in last

  await_commit-Confirmed :
      (sdk_client : sdk.Client) (tx_id : Text) (world last : World)
      → await_commit fs env clock sdk client sdk_client tx_id world ≡ (ok tt, last)
      → Confirmed sdk sdk_client tx_id client.channel_name
  unfolding await_commit
  await_commit-Confirmed sdk_client tx_id world last h =
      elim (Option-cases (wait_for_transaction_commit clock sdk client sdk_client tx_id 30 world)) [
        | inl ends ↦ absurd (let f = rw (await_commit, ends) at h in cc (f))
        | inr (done, ends) ↦
            let fine : done ≡ (ok tt, last) = rw (await_commit, ends) at h in
            wait_for_transaction_commit-Confirmed clock sdk client sdk_client tx_id 30 world last
              live (rw fine at ends)
      ]

  module _ (identity : sdk.Identity) (sdk_client : sdk.Client) (prepared_tx : sdk.Prepared) where
    abbrev prepared_id : Text
    prepared_id = unwrap_or (sdk.tx_id_of prepared_tx) []

    abbrev signed : sdk.Envelope → sdk.Envelope
    signed envelope = sdk.set_signature (sdk.sign_message identity (sdk.payload envelope)) envelope

    submit_prepared-Submitted :
        (debug : WalletError → Text) (user_context : UserContext) (world last : World) (id : Text)
        → submit_prepared fs env clock sdk debug client user_context identity sdk_client prepared_tx
            world
          ≡ (ok id, last)
        → Submitted debug user_context identity sdk_client prepared_tx id world last
    unfolding submit_prepared
    submit_prepared-Submitted debug user_context world last id h =
        let (envelope, w₁, endorsed, h₁) =
          and_then-eq-ok (map_failure _ (sdk.endorse prepared_tx sdk_client world)) _ h in
        let (gateway, w₂, reached, h₂) =
          and_then-eq-ok
            (map_failure _ (build_tls_gateway_client fs sdk env client user_context w₁)) _ h₁ in
        let (_, w₃, submitted, h₃) =
          and_then-eq-ok
            (map_failure _
              (sdk.submit gateway prepared_id client.channel_name (signed envelope) w₂))
            _ h₂ in
        let (_, w₄, confirmed, h₄) =
          and_then-eq-ok (await_commit fs env clock sdk client sdk_client prepared_id w₃) _ h₃ in
        let names : prepared_id ≡ id = ok-injective (ap (λ r. r.0) h₄) in
        let awaited =
          subst (λ t. await_commit fs env clock sdk client sdk_client t w₃ ≡ (ok tt, last)) names
            (confirmed ∙ ap (λ w. (ok tt, w)) (ap (λ r. r.1) h₄)) in
        record {
          gateway = gateway;
          envelope = envelope;
          endorsed_in = w₁;
          reached_in = w₂;
          submitted_in = w₃;
          names = names;
          endorsed = map_failure-eq-ok _ (sdk.endorse prepared_tx sdk_client world) endorsed;
          reached =
              map_failure-eq-ok _ (build_tls_gateway_client fs sdk env client user_context w₁)
                reached;
          submitted =
              subst
                (λ t. sdk.submit gateway t client.channel_name (signed envelope) w₂ ≡ (ok tt, w₃))
                names
                (map_failure-eq-ok _
                  (sdk.submit gateway prepared_id client.channel_name (signed envelope) w₂)
                  submitted);
          awaited = awaited;
          confirmed = await_commit-Confirmed sdk_client id w₃ last awaited;
        }

  submit_transaction-Committed :
      (debug : WalletError → Text) (invocation : ChaincodeInvocation) (world last : World)
      (id : Text)
      → submit_transaction fs env clock sdk debug client invocation world ≡ (ok id, last)
      → Committed debug invocation id world last
  unfolding submit_transaction
  submit_transaction-Committed debug invocation world last id h =
      let (user_context, active, h₁) =
        lift_then-eq-ok (load_user_context fs env clock sdk client) world _ h in
      let (identity, w₂, built, h₂) =
        and_then-eq-ok (build_sdk_identity fs sdk client user_context world) _ h₁ in
      let (sdk_client, w₃, connected, h₃) =
        and_then-eq-ok (connect_gateway_client fs sdk client identity client.config target_peer w₂)
          _ h₂ in
      let (prepared_tx, w₄, prepared, h₄) =
        and_then-eq-ok (prepare fs env clock sdk _ client sdk_client invocation w₃) _ h₃ in
      record {
        user_context = user_context;
        identity = identity;
        sdk_client = sdk_client;
        prepared_tx = prepared_tx;
        built_in = w₂;
        connected_in = w₃;
        prepared_in = w₄;
        active = active;
        own = build_sdk_identity-Built fs sdk client user_context identity world w₂ built;
        connected = connected;
        proposed =
            prepare-Proposed sdk fs env clock _ client sdk_client invocation prepared_tx w₃ w₄
              prepared;
        run =
            submit_prepared-Submitted identity sdk_client prepared_tx debug user_context w₄ last id
              h₄;
      }

  -- Outside the mock mode, an invocation that returns a transaction id has, in this order: built an
  -- identity of the active user's certificate and key under the client's MSP, prepared a transaction of
  -- the invocation's function and arguments on the client's channel and chaincode, had it endorsed,
  -- submitted it under that id on the channel with the identity's signature over the endorsed payload,
  -- and waited for the commit without an error; and the peer has answered that the id is valid.
  pub invoke_chaincode-Committed :
      (debug : WalletError → Text) (invocation : ChaincodeInvocation) (world last : World)
      (id : Text)
      → invoke_chaincode fs env clock sdk debug client invocation world ≡ (ok id, last)
      → Committed debug invocation id world last
  unfolding invoke_chaincode
  invoke_chaincode-Committed debug invocation world last id h =
      submit_transaction-Committed debug invocation world last id (rw (invoke_chaincode, live) at h)
