-- ===== src/Pipeline/Examples.antt =====
-- The theorems across components at concrete inputs.
use dzta.Prelude.{
  ◌≡◌, ◌≢◌, refl, Text, none, some, true, false, [], ◌∷◌, utf8, text_eq, if◌then◌else◌,
}
use dzta.Interfaces.Witnesses.Zmod.{fr}
use dzta.Interfaces.Witnesses.Systems.{listed}
use dzta.Interfaces.Witnesses.Hashes.{one_character}
use dzta.Interfaces.Witnesses.Ciphers.{memory, Store, identity_base64}
use dzta.Interfaces.Witnesses.Proofs.{trusting, trusting-laws, certificate}
use dzta.Edge.{
  PluginConfig, Headers, continue, pause, on_http_request_headers, serve, revoked_key, yes_bytes,
}
use dzta.Edge.Path.{revoke_path}
use dzta.Daemon.{sync_to_envoy_memory, admin_token_of}
use dzta.Prover.Examples.{returned, bobs_witness}
use dzta.Pipeline.Revoke.{EdgeWorld, send_to_edge}
use dzta.Pipeline.Revoke.Reach.{Pushable, sync_to_envoy_memory-refused}
use dzta.Pipeline.Admit.{Carries, prove_witness-continue}

abbrev plain_id : Text
plain_id = 55 ∷ 56 ∷ []

abbrev config : PluginConfig
config = record {
  mode = utf8 "admin_enabled";
  admin_token = utf8 "dzta-secure-edge-admin-token-2026";
}

abbrev no_marks : Store
no_marks key = none

-- A request that carries Bob's proof and an id.
abbrev bobs_request : Headers
bobs_request name =
    if text_eq name (utf8 "x-dzta-proof")
    then some returned.0.0
    else if text_eq name (utf8 "x-dzta-public-inputs")
    then some returned.0.1
    else if text_eq name (utf8 "x-dzta-revocation-id")
    then some plain_id
    else some (47 ∷ [])

bobs_request-Carries :
    Carries one_character fr listed trusting identity_base64 memory bobs_request returned.0.0
      returned.0.1 plain_id
unfolding utf8
bobs_request-Carries = record { proof = refl; inputs = refl; revocation = refl; public_path = refl }

not_marked : memory.get_shared_data (revoked_key plain_id) no_marks ≢ some yes_bytes
not_marked h = cc (h)

prove_witness-continue_example :
    (on_http_request_headers memory identity_base64 trusting config
      (some certificate)
      bobs_request
      no_marks).0.action
    ≡ continue
prove_witness-continue_example =
    prove_witness-continue one_character fr listed trusting identity_base64 memory trusting-laws
      certificate certificate bobs_witness 3 returned.0.0 returned.0.1 plain_id config bobs_request
      no_marks refl returned.1 bobs_request-Carries not_marked

-- An HTTP client that sends the one path.
abbrev path_of_url : Text → Text
path_of_url url = revoke_path plain_id

plain_id-Pushable :
    Pushable memory identity_base64 trusting path_of_url config
      (some certificate)
      404
      (utf8 "dzta-secure-edge-admin-token-2026")
      plain_id
unfolding utf8
plain_id-Pushable = record {
  enabled = refl;
  same_token = refl;
  has_token = refl;
  plain = record { no_question = refl; no_ampersand = refl; no_equals = refl };
  nonempty = refl;
  path = refl;
  store_after = _;
  stores = λ s. refl;
}

-- The first two posts are lost.
abbrev world : EdgeWorld Store
world = record { store = no_marks; reachable = false ∷ false ∷ true ∷ [] }

sync_to_envoy_memory-refused_example :
    (on_http_request_headers memory identity_base64 trusting config
      (some certificate)
      bobs_request
      (serve memory identity_base64 trusting
        (some certificate)
        ((config, bobs_request) ∷ [])
        (sync_to_envoy_memory
          (send_to_edge memory identity_base64 trusting path_of_url config (some certificate) 404)
          none
          plain_id
          (record { world = world; trace = [] })).world.store)).0.action
    ≡ pause
unfolding utf8 admin_token_of
sync_to_envoy_memory-refused_example =
    sync_to_envoy_memory-refused memory identity_base64 trusting path_of_url config
      (some certificate) 404 (utf8 "dzta-secure-edge-admin-token-2026") plain_id plain_id-Pushable
      none world [] (some certificate) ((config, bobs_request) ∷ []) config bobs_request refl refl
      (unfold utf8 in refl)
