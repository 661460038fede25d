-- ===== src/Fabric/Client/Chaincode/Proposed.antt =====
-- What the call builder of invoke_chaincode prepares.
use dzta.Prelude.{String, ok, map_err, map_err-eq-ok, ◌≡◌}
use dzta.Effects.{map_failure-eq-ok, lift_then-eq-ok}
use dzta.Interfaces.Host.{FileSystem, Environment, Clock}
use dzta.Interfaces.FabricSdk.{FabricSdk}
use dzta.Fabric.Models.{ChaincodeInvocation}
use dzta.Fabric.Client.{FabricClient}
use dzta.Fabric.Client.Chaincode.{prepare}

module _ {World : Type 0} (sdk : FabricSdk World) where
  -- A transaction prepared for the invocation, on the client's channel and chaincode.
  pub record Proposed (client : FabricClient) (sdk_client : sdk.Client)
      (invocation : ChaincodeInvocation) (prepared_tx : sdk.Prepared) (world last : World)
      : Type 0 where
    pub channelled : sdk.CallBuilder
    pub addressed : sdk.CallBuilder
    pub named : sdk.CallBuilder
    pub filled : sdk.CallBuilder
    pub of_channel :
        sdk.with_channel_name (sdk.get_chaincode_call_builder sdk_client) client.channel_name
        ≡ ok channelled
    pub of_chaincode : sdk.with_chaincode_id channelled client.chaincode_name ≡ ok addressed
    pub of_function : sdk.with_function_name addressed invocation.function ≡ ok named
    pub of_args :
        sdk.with_function_args (sdk.with_system_chaincode named) invocation.args ≡ ok filled
    pub prepared : sdk.build_prepared filled world ≡ (ok prepared_tx, last)

  pub prepare-Proposed :
      (fs : FileSystem World) (env : Environment World) (clock : Clock World) (message : String)
      (client : FabricClient) (sdk_client : sdk.Client) (invocation : ChaincodeInvocation)
      (prepared_tx : sdk.Prepared) (world last : World)
      → prepare fs env clock sdk message client sdk_client invocation world ≡ (ok prepared_tx, last)
      → Proposed client sdk_client invocation prepared_tx world last
  unfolding prepare
  prepare-Proposed fs env clock message client sdk_client invocation prepared_tx world last h =
      let channel =
        sdk.with_channel_name (sdk.get_chaincode_call_builder sdk_client) client.channel_name in
      let (channelled, e₁, h₁) = lift_then-eq-ok (map_err _ channel) world _ h in
      let (addressed, e₂, h₂) =
        lift_then-eq-ok (map_err _ (sdk.with_chaincode_id channelled client.chaincode_name)) world _
          h₁ in
      let (named, e₃, h₃) =
        lift_then-eq-ok (map_err _ (sdk.with_function_name addressed invocation.function)) world _
          h₂ in
      let arguments = sdk.with_function_args (sdk.with_system_chaincode named) invocation.args in
      let (filled, e₄, h₄) = lift_then-eq-ok (map_err _ arguments) world _ h₃ in
      record {
        channelled = channelled;
        addressed = addressed;
        named = named;
        filled = filled;
        of_channel = map_err-eq-ok _ channel e₁;
        of_chaincode = map_err-eq-ok _ (sdk.with_chaincode_id channelled client.chaincode_name) e₂;
        of_function = map_err-eq-ok _ (sdk.with_function_name addressed invocation.function) e₃;
        of_args = map_err-eq-ok _ arguments e₄;
        prepared = map_failure-eq-ok _ (sdk.build_prepared filled world) h₄;
      }
