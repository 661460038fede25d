-- ===== src/Fabric/Client.antt =====
-- fabric-client/src/fabric_client.rs: the client of the ledger.
pub mod Did
pub mod Identity
pub mod Commit
pub mod Chaincode
pub mod Retry
pub mod Ledger
pub mod Unknown
mod Examples
use dzta.Prelude.{Text, Result, ok, Option, none, some, Bool, [], utf8, trim}
use dzta.Prelude.Patterns.{trim_matches, remove_all}
use dzta.Errors.{WalletError}
use dzta.Effects.{Io, lift, ◌>>=◌}
use dzta.Interfaces.Host.{FileSystem, Environment}
use dzta.Fabric.Config.{ConnectionConfig}
use dzta.Fabric.Config.Getters.{get_org_mspid, get_peer_url}
use dzta.Fabric.Config.Files.{from_file}

pub record FabricClient : Type 0 where
  pub config : ConnectionConfig
  pub channel_name : Text
  pub chaincode_name : Text
  pub org_mspid : Text
  pub peer_url : Text
  pub is_mock : Bool

-- `trim().trim_matches('"').trim_matches('\'')`
unfoldable pub sanitize : Text → Text
sanitize raw = trim_matches b'\'' (trim_matches b'"' (trim raw))

-- The four replacements of a scheme by nothing.
unfoldable pub strip_schemes : Text → Text
strip_schemes url =
    remove_all (utf8 "http://") (
      remove_all (utf8 "https://") (remove_all (utf8 "grpc://") (remove_all (utf8 "grpcs://") url)))

abbrev pub unwrap_or {ℓ} : {A : Type ℓ} → Option A → A → A
unwrap_or none a = a
unwrap_or (some b) a = b

-- `unwrap_or_default` of a result with a text.
abbrev pub unwrap_or_default : {E : Type 0} → Result E Text → Text
unwrap_or_default (ok s) = s
unwrap_or_default (Result.err e) = []

module _ {World : Type 0} (fs : FileSystem World) (env : Environment World)
    (from_yaml : Text → Result Text ConnectionConfig) where
  unfoldable pub new : Text → Text → Text → Text → Text → Io World WalletError FabricClient
  new config_path channel_name chaincode_name org_name peer_name = do
    config ← from_file fs from_yaml config_path
    org_mspid ← lift (get_org_mspid config org_name)
    raw_peer_url ← (λ world. (
      ok (
          unwrap_or (env.var (utf8 "FABRIC_PEER_ENDPOINT") world)
            (unwrap_or_default (get_peer_url config peer_name))),
      world,
    ))
    lift (
        ok (record {
          config = config;
          channel_name = channel_name;
          chaincode_name = chaincode_name;
          org_mspid = org_mspid;
          peer_url = sanitize raw_peer_url;
          is_mock = Bool.false;
        }))

pub set_mock : Bool → FabricClient → FabricClient
set_mock is_mock client = record client { is_mock = is_mock }
