-- ===== src/Fabric/Config/Getters.antt =====
-- The getters of `ConnectionConfig`.
use dzta.Prelude.{
  Text, ok_or, ◌>>=◌, Option, none, some, Bool, List, [], ◌∷◌, map, utf8, HashMap, lookup, keys,
  values, filter,
}
use mathlib.Core.Option
use dzta.Errors.{WalletResult, config_error}
use dzta.Fabric.Config.{
  ConnectionConfig, PeerConfig, OrdererConfig, OrgConfig, ChannelConfig, PeerInChannelConfig,
  UserConfig, PathWrapper, naming, naming_both,
}
use dzta.Fabric.Config.UserContext.{UserContext, new}

-- `values().next()`
abbrev pub first {ℓ} : {A : Type ℓ} → List A → Option A
first [] = none
first (x ∷ xs) = some x

-- UserContext::new on the paths of a user and the MSP id of its organization.
abbrev context_of : OrgConfig → UserConfig → WalletResult UserContext
context_of org user = new user.cert.path user.key.path org.mspid

abbrev organization_named : Text → HashMap OrgConfig → WalletResult OrgConfig
organization_named org_name organizations =
    ok_or (lookup org_name organizations) (naming "Organization '" org_name "' not found")

unfoldable pub get_user_context : ConnectionConfig → WalletResult UserContext
get_user_context config = do
  org ←
      ok_or (lookup config.client.organization config.organizations)
        (config_error (utf8 "Organization not found"))
  user ←
      ok_or (first (values org.users)) (config_error (utf8 "No users configured for organization"))
  context_of org user

unfoldable pub get_user_context_for_org : ConnectionConfig → Text → WalletResult UserContext
get_user_context_for_org config org_name = do
  org ← organization_named org_name config.organizations
  user ←
      ok_or (first (values org.users))
        (naming "No users configured for organization '" org_name "'")
  context_of org user

unfoldable pub get_user_context_by_name : ConnectionConfig → Text → Text → WalletResult UserContext
get_user_context_by_name config org_name user_name = do
  org ← organization_named org_name config.organizations
  user ←
      ok_or (lookup user_name org.users)
        (naming_both "User '" user_name "' not found in organization '" org_name "'")
  context_of org user

unfoldable pub get_orderer_url : ConnectionConfig → WalletResult Text
get_orderer_url config =
    ok_or (Option.map (λ (o : OrdererConfig). o.url) (first (values config.orderers)))
      (config_error (utf8 "No orderers configured"))

unfoldable pub get_orderer_url_by_name : ConnectionConfig → Text → WalletResult Text
get_orderer_url_by_name config orderer_name =
    ok_or (Option.map (λ (o : OrdererConfig). o.url) (lookup orderer_name config.orderers))
      (naming "Orderer '" orderer_name "' not found")

unfoldable pub get_all_orderer_urls : ConnectionConfig → List Text
get_all_orderer_urls config = map (λ (o : OrdererConfig). o.url) (values config.orderers)

unfoldable pub get_orderer_config : ConnectionConfig → Text → WalletResult OrdererConfig
get_orderer_config config orderer_name =
    ok_or (lookup orderer_name config.orderers) (naming "Orderer '" orderer_name "' not found")

unfoldable pub get_peer_url : ConnectionConfig → Text → WalletResult Text
get_peer_url config peer_name =
    ok_or (Option.map (λ (p : PeerConfig). p.url) (lookup peer_name config.peers))
      (naming "Peer '" peer_name "' not found")

unfoldable pub get_peer_config : ConnectionConfig → Text → WalletResult PeerConfig
get_peer_config config peer_name =
    ok_or (lookup peer_name config.peers) (naming "Peer '" peer_name "' not found")

unfoldable pub get_all_peer_urls : ConnectionConfig → List Text
get_all_peer_urls config = map (λ (p : PeerConfig). p.url) (values config.peers)

unfoldable pub get_channel_peers : ConnectionConfig → Text → WalletResult (List Text)
get_channel_peers config channel_name =
    ok_or (Option.map (λ (c : ChannelConfig). keys c.peers) (lookup channel_name config.channels))
      (naming "Channel '" channel_name "' not found")

unfoldable pub get_channel_orderers : ConnectionConfig → Text → WalletResult (List Text)
get_channel_orderers config channel_name =
    ok_or (Option.map (λ (c : ChannelConfig). c.orderers) (lookup channel_name config.channels))
      (naming "Channel '" channel_name "' not found")

-- The names of a channel's peers that endorse.
abbrev pub endorsing : HashMap PeerInChannelConfig → List Text
endorsing peers = keys (filter (λ p. p.1.endorsing_peer) peers)

unfoldable pub get_endorsing_peers : ConnectionConfig → Text → WalletResult (List Text)
get_endorsing_peers config channel_name =
    ok_or
      (Option.map (λ (c : ChannelConfig). endorsing c.peers) (lookup channel_name config.channels))
      (naming "Channel '" channel_name "' not found")

unfoldable pub get_org_mspid : ConnectionConfig → Text → WalletResult Text
get_org_mspid config org_name =
    ok_or (Option.map (λ (o : OrgConfig). o.mspid) (lookup org_name config.organizations))
      (naming "Organization '" org_name "' not found")

unfoldable pub get_channel_config : ConnectionConfig → Text → WalletResult ChannelConfig
get_channel_config config channel_name =
    ok_or (lookup channel_name config.channels) (naming "Channel '" channel_name "' not found")

unfoldable pub get_org_config : ConnectionConfig → Text → WalletResult OrgConfig
get_org_config config org_name =
    ok_or (lookup org_name config.organizations) (naming "Organization '" org_name "' not found")

-- The entry of a peer in a channel.
abbrev in_channel : ConnectionConfig → Text → Text → Option PeerInChannelConfig
in_channel config channel_name peer_name = elim (lookup channel_name config.channels) [
  | none ↦ none
  | some c ↦ lookup peer_name c.peers
]

pub peer_supports_chaincode_query : ConnectionConfig → Text → Text → WalletResult Bool
peer_supports_chaincode_query config channel_name peer_name =
    ok_or
      (Option.map (λ (p : PeerInChannelConfig). p.chaincode_query)
        (in_channel config channel_name peer_name))
      (naming_both "Peer '" peer_name "' not found in channel '" channel_name "'")

pub peer_supports_ledger_query : ConnectionConfig → Text → Text → WalletResult Bool
peer_supports_ledger_query config channel_name peer_name =
    ok_or
      (Option.map (λ (p : PeerInChannelConfig). p.ledger_query)
        (in_channel config channel_name peer_name))
      (naming_both "Peer '" peer_name "' not found in channel '" channel_name "'")

abbrev path_of : Option PathWrapper → Option Text
path_of wrapper = Option.map (λ (w : PathWrapper). w.path) wrapper

unfoldable pub get_peer_tls_ca_cert_path : ConnectionConfig → Text → WalletResult (Option Text)
get_peer_tls_ca_cert_path config peer_name =
    ok_or (Option.map (λ (p : PeerConfig). path_of p.tls_ca_certs) (lookup peer_name config.peers))
      (naming "Peer '" peer_name "' not found")

unfoldable pub get_orderer_tls_ca_cert_path : ConnectionConfig → Text → WalletResult (Option Text)
get_orderer_tls_ca_cert_path config orderer_name =
    ok_or
      (Option.map (λ (o : OrdererConfig). path_of o.tls_ca_certs)
        (lookup orderer_name config.orderers))
      (naming "Orderer '" orderer_name "' not found")
