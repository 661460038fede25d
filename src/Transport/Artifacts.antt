-- ===== src/Transport/Artifacts.antt =====
-- transport-engine/src/transport.rs: how a ProofArtifact and a HeaderBundle are built, and the engine.
use dzta.Prelude.{Text, Result, ok, map_err, ◌>>=◌, none, some, [], utf8, ℕ, Option}
use dzta.Interfaces.Groth16.{Base64}
use dzta.Transport.{
  ProofArtifact, HeaderBundle, TransportConfig, TransportError, http, validated, new_config,
}
use dzta.Transport.Requests.{insert_key}

-- `now` is the time of the call.
abbrev new_artifact : Text → Text → Text → Text → Text → Text → ProofArtifact
new_artifact now request_id device_id edge_id proof public_inputs = record {
  request_id = request_id;
  device_id = device_id;
  edge_id = edge_id;
  proof = proof;
  public_inputs = public_inputs;
  revocation_id = none;
  status = utf8 "ready";
  metadata = [];
  collected_at = now;
}

abbrev with_revocation_id : Text → ProofArtifact → ProofArtifact
with_revocation_id revocation_id a = record a { revocation_id = some revocation_id }

abbrev set_status : Text → ProofArtifact → ProofArtifact
set_status status a = record a { status = status }

abbrev with_metadata : Text → Text → ProofArtifact → ProofArtifact
with_metadata key value a = record a { metadata = insert_key key value a.metadata }

abbrev with_bundled_proof : Text → HeaderBundle → HeaderBundle
with_bundled_proof proof b = record b { proof = some proof }

abbrev with_public_inputs : Text → HeaderBundle → HeaderBundle
with_public_inputs public_inputs b = record b { public_inputs = some public_inputs }

abbrev with_bundled_revocation_id : Text → HeaderBundle → HeaderBundle
with_bundled_revocation_id revocation_id b = record b { revocation_id = some revocation_id }

abbrev with_timeout : ℕ → TransportConfig → TransportConfig
with_timeout timeout c = record c { timeout = some timeout }

pub record TransportEngine (Client : Type 0) : Type 0 where
  pub client : Client
  pub config : TransportConfig

-- `build` gives reqwest's client for a timeout.
abbrev new_engine :
    {Client : Type 0}
    → (Option ℕ → Result Text Client)
    → TransportConfig
    → Result TransportError (TransportEngine Client)
new_engine build config = do
  _ ← validated config
  client ← map_err http (build config.timeout)
  ok (record { client = client; config = config })

-- TransportEngine::default
abbrev default_engine :
    {Client : Type 0}
    → (Option ℕ → Result Text Client)
    → Result TransportError (TransportEngine Client)
default_engine build = new_engine build (new_config (utf8 "http://127.0.0.1:10000"))

-- encode_proof_for_headers and encode_public_inputs_for_headers
abbrev encode_proof_for_headers : Base64 → Text → Text
encode_proof_for_headers base64 proof = base64.encode proof

abbrev encode_public_inputs_for_headers : Base64 → Text → Text
encode_public_inputs_for_headers base64 public_inputs = base64.encode public_inputs
