-- ===== src/Fabric/Client/Unknown.antt =====
-- `new` with the name of a peer that the profile does not have.
use dzta.Prelude.{Text, Result, ok, ◌≡◌, refl, none, false, [], lookup, utf8, trim}
use dzta.Prelude.Patterns.{trim_matches}
use dzta.Interfaces.Host.{FileSystem, Environment}
use dzta.Fabric.Config.{ConnectionConfig}
use dzta.Fabric.Config.Getters.{get_org_mspid, get_peer_url}
use dzta.Fabric.Config.Files.{from_file}
use dzta.Fabric.Client.{new, sanitize}

sanitize_nil : sanitize [] ≡ []
unfolding sanitize trim trim_matches
sanitize_nil = refl

module _ {World : Type 0} (fs : FileSystem World) (env : Environment World)
    (from_yaml : Text → Result Text ConnectionConfig) where
  -- Where the environment gives no endpoint, a peer that the profile does not define is no error: the
  -- client is built with an empty url for it.
  pub new-unknown_peer :
      (config_path channel_name chaincode_name org_name peer_name mspid : Text)
      (config : ConnectionConfig) (world next : World)
      → from_file fs from_yaml config_path world ≡ (ok config, next)
      → get_org_mspid config org_name ≡ ok mspid
      → env.var (utf8 "FABRIC_PEER_ENDPOINT") next ≡ none
      → lookup peer_name config.peers ≡ none
      → new fs env from_yaml config_path channel_name chaincode_name org_name peer_name world ≡ (
        ok (record {
          config = config;
          channel_name = channel_name;
          chaincode_name = chaincode_name;
          org_mspid = mspid;
          peer_url = [];
          is_mock = false;
        }),
        next,
      )
  unfolding new get_peer_url
  new-unknown_peer config_path channel_name chaincode_name org_name peer_name mspid config world
        next loaded member unset absent =
      rw (loaded, member, unset, absent, sanitize_nil) refl
