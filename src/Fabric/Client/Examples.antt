-- ===== src/Fabric/Client/Examples.antt =====
-- The client over an SDK that accepts everything.
use native.Mathlib.Nat.{le_refl}
use dzta.Prelude.{
  ℕ, ◌*◌, ◌-◌, ◌^◌, ◌≡◌, ◌↔◌, refl, Text, ok, err, some, none, true, false, [], ◌∷◌, ◌++◌, utf8,
  arith, take, length, trim,
}
use dzta.Prelude.Int.{pos}
use dzta.Errors.{WalletError, WalletResult, chaincode_failed}
use dzta.Interfaces.FabricSdk.{FabricSdk, PublicKeys, Hex}
use dzta.Interfaces.Witnesses.Hashes.{checksum}
use dzta.Interfaces.Witnesses.Network.{sdk, files, no_variables, sleeper, sleeper-laws}
use dzta.Fabric.Config.{ConnectionConfig, PeerConfig}
use dzta.Prelude.Patterns.{contains_text}
use dzta.Fabric.Config.UserContext.{new}
use dzta.Fabric.Config.Getters.{get_user_context, get_peer_config}
use dzta.Fabric.Config.Files.{read_peer_tls_cert_bytes, read_peer_tonic_tls_cert_bytes}
use dzta.Fabric.Models.{ChaincodeInvocation, CredentialMetadata, CredentialSchema}
use dzta.Fabric.Ledger.{Ledger, verify_credential_active}
use dzta.Fabric.Ledger.Active.{Active, verify_credential_active_iff}
use dzta.Fabric.Client.{FabricClient}
use dzta.Fabric.Client.Identity.{
  load_cert, load_key, build_sdk_identity, connect_gateway_client, build_tls_gateway_client,
  target_peer,
}
use dzta.Fabric.Client.Commit.{wait_for_transaction_commit, wait_loop, verdict}
use dzta.Fabric.Client.Commit.Confirmed.{PollLaws, Settles, wait_for_transaction_commit_total}
use dzta.Fabric.Client.Chaincode.{
  prepare, await_commit, submit_prepared, submit_transaction, invoke_chaincode,
}
use dzta.Fabric.Client.Chaincode.Committed.{Committed, invoke_chaincode-Committed}
use dzta.Fabric.Client.Retry.{get_endorsements_with_retry, retry_loop}
use dzta.Fabric.Client.Retry.Bounded.{AttemptLaws, Exhausted, get_endorsements_with_retry-Exhausted}
use dzta.Fabric.Client.Did.{generate_did, generate_did_from_public_key, did_prefix}

abbrev peer : PeerConfig
peer = record {
  url = 112 ∷ [];
  grpc_options = record { ssl_target_name_override = none; keep_alive_time_ms = none };
  tls_ca_certs = none;
  tls_ca_certs_tonic = some (record { path = 99 ∷ [] });
}

abbrev config : ConnectionConfig
config = record {
  version = [];
  peers = (target_peer, peer) ∷ [];
  orderers = [];
  organizations =
      (
        3 ∷ [],
        record {
          mspid = 77 ∷ [];
          users =
              (117 ∷ [], record { cert = record { path = 1 ∷ [] }; key = record { path = 2 ∷ [] } })
              ∷ [];
          peers = [];
          certificate_authorities = [];
        },
      )
      ∷ [];
  channels = [];
  client = record { organization = 3 ∷ []; logging = record { level = [] } };
}

abbrev live : FabricClient
live = record {
  config = config;
  channel_name = 4 ∷ [];
  chaincode_name = 5 ∷ [];
  org_mspid = 77 ∷ [];
  peer_url = 112 ∷ [];
  is_mock = false;
}

abbrev polls : PollLaws sleeper sdk
polls = record { instant-commit_status = λ c t channel w. le_refl w }

wait_for_transaction_commit_total_example :
    (outcome : WalletResult (Unit {0})) × (last : ℕ) × (wait_for_transaction_commit sleeper sdk live
        tt
        (116 ∷ [])
        30
        0
      ≡ some (outcome, last))
    × Settles sdk tt (116 ∷ []) (4 ∷ []) outcome
wait_for_transaction_commit_total_example =
    wait_for_transaction_commit_total sleeper sdk live tt (116 ∷ []) 30 sleeper-laws polls 0 refl

abbrev debug : WalletError → Text
debug e = []

abbrev invocation : ChaincodeInvocation
invocation = record { function = 102 ∷ []; args = [] }

invoked :
    invoke_chaincode files no_variables sleeper sdk debug live invocation 0 ≡ (ok (116 ∷ []), 0)
unfolding invoke_chaincode submit_transaction submit_prepared prepare await_commit
    build_sdk_identity connect_gateway_client build_tls_gateway_client load_cert load_key
    get_user_context get_peer_config read_peer_tls_cert_bytes read_peer_tonic_tls_cert_bytes
    wait_for_transaction_commit wait_loop verdict utf8 target_peer new contains_text
invoked = refl

invoke_chaincode-Committed_example :
    Committed files no_variables sleeper sdk live refl debug invocation (116 ∷ []) 0 0
invoke_chaincode-Committed_example =
    invoke_chaincode-Committed files no_variables sleeper sdk live refl debug invocation 0 0
      (116 ∷ []) invoked

-- A gateway that refuses every request.
abbrev refusing : FabricSdk ℕ
refusing = record sdk { endorse_request = λ g r w. (err (33 ∷ []), w) }

abbrev attempts : AttemptLaws sleeper refusing
attempts = record { instant-endorse_request = λ g r w. le_refl w }

abbrev exhausted : WalletError
exhausted = chaincode_failed (utf8 "Max endorsement retries exhausted. Gateway Error: " ++ 33 ∷ [])

gave_up : get_endorsements_with_retry sleeper refusing live tt tt 3 0 ≡ (err exhausted, 300000000)
unfolding get_endorsements_with_retry retry_loop
gave_up = refl

get_endorsements_with_retry-Exhausted_example :
    Exhausted sleeper sleeper-laws refusing attempts tt tt
      (100000000 * (2 ^ (3 - 1) - 1))
      exhausted
      0
      300000000
get_endorsements_with_retry-Exhausted_example =
    get_endorsements_with_retry-Exhausted sleeper sleeper-laws refusing attempts tt tt live 3 0
      300000000 exhausted (omega arith) (omega arith) refl gave_up

abbrev metadata : CredentialMetadata
metadata = record {
  credential_id = 8 ∷ [];
  schema_id = [];
  issuer_did = [];
  subject_did = [];
  issued_at = pos 5;
  expires_at = pos 9;
  revoked = false;
  revoked_at = none;
  zkp_supported = true;
  proofable_fields = [];
}

abbrev schema : CredentialSchema
schema = record {
  schema_id = [];
  issuer_did = [];
  name = [];
  version = [];
  attributes = [];
  created = pos 0;
}

abbrev ledger : Ledger ℕ
ledger = record {
  is_credential_revoked = λ id w. (ok false, w);
  get_credential_metadata = λ id w. (ok metadata, w);
  get_schema = λ id w. (ok schema, w);
  record_credential_metadata = λ id schema_id issuer_did subject_did expires_at w. (ok [], w);
  revoke_credential = λ id w. (ok [], w);
  register_schema = λ id issuer_did name version attributes w. (ok [], w);
}

verify_credential_active_iff_example :
    (verify_credential_active sleeper ledger (8 ∷ []) 0 ≡ (ok true, 0))
    ↔ (Active sleeper ledger (8 ∷ []) 0 0 × (true ≡ true))
verify_credential_active_iff_example = verify_credential_active_iff sleeper ledger (8 ∷ []) 0 0 true

-- Every byte written twice.
abbrev doubled : Text → Text
doubled [] = []
doubled (c ∷ s) = c ∷ c ∷ doubled s

length-doubled : (s : Text) → length (doubled s) ≡ 2 * length s
length-doubled [] = omega arith
length-doubled (c ∷ s) = omega (arith, length-doubled s)

doubled_injective : (s t : Text) → doubled s ≡ doubled t → s ≡ t
doubled_injective [] [] h = refl
doubled_injective [] (d ∷ t) h = absurd (cc (h))
doubled_injective (c ∷ s) [] h = absurd (cc (h))
doubled_injective (c ∷ s) (d ∷ t) h =
    let rest : doubled s ≡ doubled t = cc (h) in
    let same : s ≡ t = doubled_injective s t rest in cc (h, same)

abbrev doubling : Hex
doubling = record {
  encode = doubled;
  length-encode = length-doubled;
  encode_injective = doubled_injective;
}

abbrev public_keys : PublicKeys
public_keys = record {
  public_key_from_pem = ok;
  public_key_to_der = ok;
  certificate_from_pem = ok;
  certificate_public_key = ok;
  public_key_to_pem = ok;
}

abbrev did_of_five : Text
did_of_five = utf8 "did:dzta:" ++ doubled (take 16 (checksum.digest (5 ∷ [])))

generated : generate_did checksum doubling public_keys (5 ∷ []) ≡ ok did_of_five
unfolding generate_did generate_did_from_public_key trim did_prefix
generated = refl

abbrev did_of_six : Text
did_of_six = utf8 "did:dzta:" ++ doubled (take 16 (checksum.digest (6 ∷ [])))

five_generated : generate_did_from_public_key checksum doubling (5 ∷ []) ≡ ok did_of_five
unfolding generate_did_from_public_key did_prefix
five_generated = refl

six_generated : generate_did_from_public_key checksum doubling (6 ∷ []) ≡ ok did_of_six
unfolding generate_did_from_public_key did_prefix
six_generated = refl
