-- ===== src/Fabric/Client/Identity/Built.antt =====
-- What build_sdk_identity of fabric-client/src/fabric_client.rs builds.
use dzta.Prelude.{Text, ok, map_err, map_err-eq-ok, ◌≡◌, ap, ◌∙◌}
use dzta.Effects.{and_then-eq-ok, lift-eq-ok, lift_then-eq-ok}
use dzta.Interfaces.Host.{FileSystem}
use dzta.Interfaces.FabricSdk.{FabricSdk}
use dzta.Fabric.Config.UserContext.{UserContext, get_cert_pem, get_key_pem}
use dzta.Fabric.Client.{FabricClient}
use dzta.Fabric.Client.Identity.{load_cert, load_key, build_sdk_identity}

module _ {World : Type 0} (fs : FileSystem World) (sdk : FabricSdk World) where
  -- An identity made of the user's certificate and key under the client's MSP.
  pub record Built (client : FabricClient) (user_context : UserContext) (identity : sdk.Identity)
      (world last : World) : Type 0 where
    pub cert : Text
    pub key : Text
    pub between : World
    pub parsed : sdk.IdentityBuilder
    pub member : sdk.IdentityBuilder
    pub keyed : sdk.IdentityBuilder
    pub cert_loaded :
        load_cert fs "Failed to load cert file: " (get_cert_pem user_context) world
        ≡ (ok cert, between)
    pub key_loaded : load_key fs (get_key_pem user_context) between ≡ (ok key, last)
    pub of_cert : sdk.identity_from_pem cert ≡ ok parsed
    pub of_msp : sdk.with_msp parsed client.org_mspid ≡ ok member
    pub of_key : sdk.with_private_key member key ≡ ok keyed
    pub built : sdk.build_identity keyed ≡ ok identity

  pub build_sdk_identity-Built :
      (client : FabricClient) (user_context : UserContext) (identity : sdk.Identity)
      (world last : World)
      → build_sdk_identity fs sdk client user_context world ≡ (ok identity, last)
      → Built client user_context identity world last
  unfolding build_sdk_identity
  build_sdk_identity-Built client user_context identity world last h =
      let (cert, w₁, cert_loaded, h₁) =
        and_then-eq-ok (load_cert fs "Failed to load cert file: " (get_cert_pem user_context) world)
          _ h in
      let (key, w₂, key_loaded, h₂) =
        and_then-eq-ok (load_key fs (get_key_pem user_context) w₁) _ h₁ in
      let (parsed, e₁, h₃) = lift_then-eq-ok (map_err _ (sdk.identity_from_pem cert)) w₂ _ h₂ in
      let (member, e₂, h₄) =
        lift_then-eq-ok (map_err _ (sdk.with_msp parsed client.org_mspid)) w₂ _ h₃ in
      let (keyed, e₃, h₅) = lift_then-eq-ok (map_err _ (sdk.with_private_key member key)) w₂ _ h₄ in
      let (done, ends) = lift-eq-ok (map_err _ (sdk.build_identity keyed)) h₅ in
      record {
        cert = cert;
        key = key;
        between = w₁;
        parsed = parsed;
        member = member;
        keyed = keyed;
        cert_loaded = cert_loaded;
        key_loaded = key_loaded ∙ ap (λ w. (ok key, w)) ends;
        of_cert = map_err-eq-ok _ (sdk.identity_from_pem cert) e₁;
        of_msp = map_err-eq-ok _ (sdk.with_msp parsed client.org_mspid) e₂;
        of_key = map_err-eq-ok _ (sdk.with_private_key member key) e₃;
        built = map_err-eq-ok _ (sdk.build_identity keyed) done;
      }
