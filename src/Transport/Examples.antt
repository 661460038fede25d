-- ===== src/Transport/Examples.antt =====
-- The client's theorems at concrete artifacts and responses.
use dzta.Prelude.{utf8, ◌++◌, ℕ, suc, ◌≡◌, ◌↔◌, ◌≤◌, ◌<◌, Text, ok, some, none, [], ◌∷◌}
use dzta.Transport.{
  TransportConfig, HeaderBundle, ProofArtifact, ProofEnvelope, Gateway, Response, handle_response,
  collect_proof, target_url, get_method,
}
use dzta.Transport.Outcome.{handle_response_iff, collect_proof_iff}

abbrev artifact : ProofArtifact
artifact = record {
  request_id = [];
  device_id = [];
  edge_id = [];
  proof = 112 ∷ [];
  public_inputs = 105 ∷ [];
  revocation_id = some (55 ∷ []);
  status = [];
  metadata = [];
  collected_at = [];
}

abbrev envelope : ProofEnvelope
envelope = record { request_id = []; status = []; message = []; artifact = none; submitted_at = [] }

-- A gateway that rejects with status 403 and whose bodies all read.
abbrev gateway : Gateway (Unit {0}) ℕ
gateway = record {
  send = λ req n. (ok (record { status = 403; text = ok [] }), suc n);
  request_json = λ req. [];
  artifact_json = λ a. [];
  envelope_from_str = λ s. ok envelope;
  artifact_from_str = λ s. ok artifact;
  new_uuid = λ n. ([], suc n);
}

abbrev plain_config : TransportConfig
plain_config = record {
  envoy_url = 104 ∷ [];
  timeout = none;
  proof_header = 112 ∷ [];
  public_inputs_header = 105 ∷ [];
  revocation_header = 114 ∷ [];
  request_path = [];
}

abbrev bundle : HeaderBundle
bundle = record { proof = some (32 ∷ []); public_inputs = some (105 ∷ []); revocation_id = none }

abbrev rejection : Response
rejection = record { status = 403; text = ok [] }

handle_response_iff_example : (handle_response gateway rejection ≡ ok envelope) ↔ (
    (200 ≤ 403)
    × (403 < 300)
    × ((body : Text) × (rejection.text ≡ ok body) × (gateway.envelope_from_str body ≡ ok envelope)))
handle_response_iff_example = handle_response_iff gateway rejection envelope

collect_proof_iff_example : (collect_proof gateway plain_config (49 ∷ []) 0 ≡ (ok artifact, 1)) ↔ (
    (status : ℕ) × (body : Text) × (gateway.send
        (record {
          method = get_method;
          url = target_url plain_config (some (utf8 "/api/v1/resource/" ++ 49 ∷ []));
          headers = (utf8 "X-DZTA-Request-Id", 49 ∷ []) ∷ [];
          body = none;
        })
        0
      ≡ (ok (record { status = status; text = ok body }), 1))
    × (gateway.artifact_from_str body ≡ ok artifact))
collect_proof_iff_example = collect_proof_iff gateway plain_config (49 ∷ []) artifact 0 1
