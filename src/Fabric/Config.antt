-- ===== src/Fabric/Config.antt =====
-- fabric-client/src/config.rs: the connection profile, its validation and its getters.
pub mod UserContext
pub mod Getters
pub mod Files
pub mod WellFormed
pub mod References
mod Examples
use dzta.Prelude.{
  ℕ, ◌≡◌, refl, Text, ok, err, ◌>>=◌, ◌++◌, Option, Bool, true, false, List, [], ◌∷◌, utf8, String,
  HashMap, contains_key, keys, is_empty,
}
use dzta.Errors.{WalletError, WalletResult, config_error}

pub record PathWrapper : Type 0 where
  pub path : Text

pub record GrpcOptions : Type 0 where
  pub ssl_target_name_override : Option Text
  pub keep_alive_time_ms : Option ℕ

pub record PeerConfig : Type 0 where
  pub url : Text
  pub grpc_options : GrpcOptions
  pub tls_ca_certs : Option PathWrapper
  pub tls_ca_certs_tonic : Option PathWrapper

pub record OrdererConfig : Type 0 where
  pub url : Text
  pub grpc_options : GrpcOptions
  pub tls_ca_certs : Option PathWrapper

pub record UserConfig : Type 0 where
  pub cert : PathWrapper
  pub key : PathWrapper

pub record OrgConfig : Type 0 where
  pub mspid : Text
  pub users : HashMap UserConfig
  pub peers : List Text
  pub certificate_authorities : List Text

pub record PeerInChannelConfig : Type 0 where
  pub endorsing_peer : Bool
  pub chaincode_query : Bool
  pub ledger_query : Bool
  pub event_source : Bool

pub record ChannelConfig : Type 0 where
  pub peers : HashMap PeerInChannelConfig
  pub orderers : List Text
  pub endorsement_policy : Option Text

pub record LoggingConfig : Type 0 where
  pub level : Text

pub record ClientConfig : Type 0 where
  pub organization : Text
  pub logging : LoggingConfig

pub record ConnectionConfig : Type 0 where
  pub version : Text
  pub peers : HashMap PeerConfig
  pub orderers : HashMap OrdererConfig
  pub organizations : HashMap OrgConfig
  pub channels : HashMap ChannelConfig
  pub client : ClientConfig

-- A message with a name in it.
abbrev pub naming : String → Text → String → WalletError
naming before name after = config_error (utf8 before ++ (name ++ utf8 after))

-- A message with the names of a reference and of what makes it.
abbrev pub naming_both : String → Text → String → Text → String → WalletError
naming_both before name between owner after =
    config_error (utf8 before ++ (name ++ (utf8 between ++ (owner ++ utf8 after))))

abbrev pub require : Bool → WalletError → WalletResult (Unit {0})
require true e = ok tt
require false e = err e

abbrev pub forbid : Bool → WalletError → WalletResult (Unit {0})
forbid true e = err e
forbid false e = ok tt

pub forbid-eq-ok : (b : Bool) (e : WalletError) → forbid b e ≡ ok tt → b ≡ false
forbid-eq-ok true e h = absurd (cc (h))
forbid-eq-ok false e h = refl

-- The inner loops of `validate`: every name is a key of the map.
unfoldable pub check_names {ℓ} :
    {V : Type ℓ} → HashMap V → (Text → WalletError) → List Text → WalletResult (Unit {0})
check_names entries failure [] = ok tt
check_names entries failure (name ∷ names) = do
  _ ← require (contains_key name entries) (failure name)
  check_names entries failure names

-- The loop over the organizations. That an organization has no peers is only logged.
unfoldable pub check_organizations :
    HashMap PeerConfig → HashMap OrgConfig → WalletResult (Unit {0})
check_organizations peers [] = ok tt
check_organizations peers ((org_name, org) ∷ organizations) = do
  _ ←
      check_names peers
        (λ peer_name. naming_both "Peer '" peer_name "' referenced in org '" org_name "' not found")
        org.peers
  check_organizations peers organizations

unfoldable pub check_channels :
    HashMap PeerConfig → HashMap OrdererConfig → HashMap ChannelConfig → WalletResult (Unit {0})
check_channels peers orderers [] = ok tt
check_channels peers orderers ((channel_name, channel) ∷ channels) = do
  _ ←
      check_names orderers
        (λ orderer_name.
          naming_both "Orderer '" orderer_name "' referenced in channel '" channel_name
            "' not found")
        channel.orderers
  _ ←
      check_names peers
        (λ peer_name.
          naming_both "Peer '" peer_name "' referenced in channel '" channel_name "' not found")
        (keys channel.peers)
  check_channels peers orderers channels

unfoldable pub validate : ConnectionConfig → WalletResult (Unit {0})
validate config = do
  _ ←
      require (contains_key config.client.organization config.organizations)
        (naming "Client organization '" config.client.organization "' not found in configuration")
  _ ← forbid (is_empty config.peers) (config_error (utf8 "No peers configured"))
  _ ← forbid (is_empty config.orderers) (config_error (utf8 "No orderers configured"))
  _ ← forbid (is_empty config.channels) (config_error (utf8 "No channels configured"))
  _ ← check_organizations config.peers config.organizations
  check_channels config.peers config.orderers config.channels
