-- ===== src/Fabric/Config/Files.antt =====
-- The functions of `ConnectionConfig` that read files.
use dzta.Prelude.{
  Text, Result, ok, map_err, ok_or, ◌++◌, none, some, [], utf8, not, lookup, String, Option,
}
use dzta.Errors.{WalletError, config_error}
use dzta.Effects.{Io, lift, map_failure, ◌>>=◌}
use dzta.Interfaces.Host.{FileSystem}
use dzta.Fabric.Config.{ConnectionConfig, PeerConfig, PathWrapper, validate, naming, forbid}

-- The text of a message and of an error after it.
abbrev pub config_failure : String → Text → WalletError
config_failure message e = config_error (utf8 message ++ e)

-- A message with a path, and an error after it.
abbrev path_failure : String → Text → Text → WalletError
path_failure message path e = config_error (utf8 message ++ (path ++ (utf8 ": " ++ e)))

-- `from_yaml` is serde_yaml::from_str at `ConnectionConfig`.
module _ {World : Type 0} (fs : FileSystem World)
    (from_yaml : Text → Result Text ConnectionConfig) where
  unfoldable pub from_file : Text → Io World WalletError ConnectionConfig
  from_file path = do
    _ ← (λ world.
        lift
          (forbid (not (fs.exists path world))
            (config_failure "Configuration file not found: " path))
          world)
    content ← (λ world.
        map_failure (path_failure "Failed to read config file " path)
          (fs.read_to_string path world))
    config ← lift (map_err (config_failure "Failed to parse YAML config: ") (from_yaml content))
    _ ← lift (validate config)
    lift (ok config)

module _ {World : Type 0} (fs : FileSystem World) where
  -- The bytes of a certificate's file, and none where no file is configured.
  abbrev read_certificate : Option PathWrapper → Io World WalletError Text
  read_certificate none world = (ok [], world)
  read_certificate (some wrapper) world =
      map_failure (path_failure "Failed to read TLS CA file " wrapper.path)
        (fs.read wrapper.path world)

  abbrev peer_for_tls : ConnectionConfig → Text → Result WalletError PeerConfig
  peer_for_tls config peer_name =
      ok_or (lookup peer_name config.peers)
        (naming "Peer '" peer_name "' not found for TLS loading")

  unfoldable pub read_peer_tls_cert_bytes : ConnectionConfig → Text → Io World WalletError Text
  read_peer_tls_cert_bytes config peer_name = do
    peer ← lift (peer_for_tls config peer_name)
    read_certificate peer.tls_ca_certs

  unfoldable pub read_peer_tonic_tls_cert_bytes :
      ConnectionConfig → Text → Io World WalletError Text
  read_peer_tonic_tls_cert_bytes config peer_name = do
    peer ← lift (peer_for_tls config peer_name)
    read_certificate peer.tls_ca_certs_tonic
