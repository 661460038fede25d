-- ===== src/Fabric/Config/Examples.antt =====
-- A profile with one organization, one peer, one orderer and one channel.
use dzta.Prelude.{Text, ok, none, true, false, [], ◌∷◌, ◌≡◌, ◌↔◌, refl, suc, ℕ}
use dzta.Interfaces.Host.{FileSystem}
use dzta.Fabric.Config.{
  ConnectionConfig, PeerConfig, OrdererConfig, validate, check_organizations, check_channels,
  check_names,
}
use dzta.Fabric.Config.Getters.{get_channel_peers, get_channel_orderers}
use dzta.Fabric.Config.Files.{from_file}
use dzta.Fabric.Config.WellFormed.{WellFormed, validate_iff}
use dzta.Fabric.Config.References.{Resolved, from_file-Resolved}

abbrev peer : PeerConfig
peer = record {
  url = 112 ∷ [];
  grpc_options = record { ssl_target_name_override = none; keep_alive_time_ms = none };
  tls_ca_certs = none;
  tls_ca_certs_tonic = none;
}

abbrev orderer : OrdererConfig
orderer = record {
  url = 111 ∷ [];
  grpc_options = record { ssl_target_name_override = none; keep_alive_time_ms = none };
  tls_ca_certs = none;
}

-- `named` is the peer that the channel names.
abbrev profile : Text → ConnectionConfig
profile named = record {
  version = [];
  peers = (1 ∷ [], peer) ∷ [];
  orderers = (2 ∷ [], orderer) ∷ [];
  organizations =
      (
        3 ∷ [],
        record { mspid = 77 ∷ []; users = []; peers = (1 ∷ []) ∷ []; certificate_authorities = [] },
      )
      ∷ [];
  channels =
      (
        4 ∷ [],
        record {
          peers =
              (
                named,
                record {
                  endorsing_peer = true;
                  chaincode_query = true;
                  ledger_query = false;
                  event_source = false;
                },
              )
              ∷ [];
          orderers = (2 ∷ []) ∷ [];
          endorsement_policy = none;
        },
      )
      ∷ [];
  client = record { organization = 3 ∷ []; logging = record { level = [] } };
}

validate_iff_example : (validate (profile (1 ∷ [])) ≡ ok tt) ↔ WellFormed (profile (1 ∷ []))
validate_iff_example = validate_iff (profile (1 ∷ []))

accepted : validate (profile (1 ∷ [])) ≡ ok tt
unfolding validate check_organizations check_channels check_names
accepted = refl

-- The file system counts the reads.
abbrev files : FileSystem ℕ
files = record {
  exists = λ path n. true;
  read = λ path n. (ok [], suc n);
  read_to_string = λ path n. (ok [], suc n);
  create_dir_all = λ path n. (ok tt, n);
  parent = λ path. none;
}

loaded : from_file files (λ s. ok (profile (1 ∷ []))) (5 ∷ []) 0 ≡ (ok (profile (1 ∷ [])), 1)
unfolding from_file validate check_organizations check_channels check_names
loaded = refl

has_peers : get_channel_peers (profile (1 ∷ [])) (4 ∷ []) ≡ ok ((1 ∷ []) ∷ [])
unfolding get_channel_peers
has_peers = refl

has_orderers : get_channel_orderers (profile (1 ∷ [])) (4 ∷ []) ≡ ok ((2 ∷ []) ∷ [])
unfolding get_channel_orderers
has_orderers = refl

from_file-Resolved_example : Resolved (profile (1 ∷ [])) (4 ∷ []) ((1 ∷ []) ∷ []) ((2 ∷ []) ∷ [])
from_file-Resolved_example =
    from_file-Resolved files (λ s. ok (profile (1 ∷ []))) (5 ∷ []) 0 1 (profile (1 ∷ [])) (4 ∷ [])
      ((1 ∷ []) ∷ []) ((2 ∷ []) ∷ []) loaded has_peers has_orderers
