-- ===== src/Interfaces/FabricSdk.antt =====
-- fabric_sdk, tonic and openssl as fabric-client calls them. A failure carries the text that the
-- library's error displays.
use dzta.Prelude.{ℕ, ◌*◌, ◌≡◌, Text, Result, Option, List, length}
use dzta.Prelude.Int.{ℤ}

-- tonic's ClientTlsConfig
pub record TlsConfig : Type 0 where
  pub ca_certificate : Text
  pub identity_cert : Text
  pub identity_key : Text
  pub domain_name : Text

-- What commit_status answers.
pub record CommitStatus : Type 0 where
  pub result : ℤ
  pub block_number : ℕ

pub record FabricSdk (World : Type 0) : Type 1 where
  pub IdentityBuilder : Type 0
  pub Identity : Type 0
  pub ClientBuilder : Type 0
  pub Client : Type 0
  pub CallBuilder : Type 0
  pub Prepared : Type 0
  pub Envelope : Type 0
  pub Endpoint : Type 0
  pub Gateway : Type 0
  pub EndorseRequest : Type 0
  pub EndorseResponse : Type 0
  pub identity_from_pem : Text → Result Text IdentityBuilder
  pub with_msp : IdentityBuilder → Text → Result Text IdentityBuilder
  pub with_private_key : IdentityBuilder → Text → Result Text IdentityBuilder
  pub build_identity : IdentityBuilder → Result Text Identity
  pub sign_message : Identity → Text → Text
  pub new_client : ClientBuilder
  pub with_identity : ClientBuilder → Identity → Result Text ClientBuilder
  pub with_tls : ClientBuilder → Text → Result Text ClientBuilder
  pub with_scheme : ClientBuilder → Text → Result Text ClientBuilder
  pub with_authority : ClientBuilder → Text → Result Text ClientBuilder
  pub build_client : ClientBuilder → Result Text Client
  pub connect : Client → World → Result Text Client × World
  pub get_chaincode_call_builder : Client → CallBuilder
  pub with_channel_name : CallBuilder → Text → Result Text CallBuilder
  pub with_chaincode_id : CallBuilder → Text → Result Text CallBuilder
  pub with_function_name : CallBuilder → Text → Result Text CallBuilder
  pub with_system_chaincode : CallBuilder → CallBuilder
  pub with_function_args : CallBuilder → List Text → Result Text CallBuilder
  pub build_prepared : CallBuilder → World → Result Text Prepared × World
  -- the transaction id in the channel header of the signed proposal
  pub tx_id_of : Prepared → Option Text
  pub endorse : Prepared → Client → World → Result Text Envelope × World
  pub evaluate : Prepared → Client → World → Result Text Text × World
  pub payload : Envelope → Text
  pub set_signature : Text → Envelope → Envelope
  -- commit_status of a transaction on a channel
  pub commit_status : Client → Text → Text → World → Result Text CommitStatus × World
  -- Endpoint::from_shared, tls_config, connect
  pub from_shared : Text → Result Text Endpoint
  pub tls_config : Endpoint → TlsConfig → Result Text Endpoint
  pub connect_endpoint : Endpoint → World → Result Text Gateway × World
  -- GatewayClient::submit of a transaction id, a channel id and a prepared transaction
  pub submit : Gateway → Text → Text → Envelope → World → Result Text (Unit {0}) × World
  pub endorse_request : Gateway → EndorseRequest → World → Result Text EndorseResponse × World
  -- EndorseResponse { prepared_transaction: None }
  pub no_transaction : EndorseResponse

-- openssl's PKey and X509.
pub record PublicKeys : Type 0 where
  -- PKey::public_key_from_pem, then public_key_to_der
  pub public_key_from_pem : Text → Result Text Text
  pub public_key_to_der : Text → Result Text Text
  -- X509::from_pem, public_key, public_key_to_pem
  pub certificate_from_pem : Text → Result Text Text
  pub certificate_public_key : Text → Result Text Text
  pub public_key_to_pem : Text → Result Text Text

-- hex::encode: two digits for a byte, and different texts for different bytes.
pub record Hex : Type 0 where
  pub encode : Text → Text
  pub length-encode : (s : Text) → length (encode s) ≡ 2 * length s
  pub encode_injective : (s t : Text) → encode s ≡ encode t → s ≡ t
