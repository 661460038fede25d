-- ===== src/Transport.antt =====
-- transport-engine/src/transport.rs: the client that sends proofs through the gateway.
pub mod Headers
pub mod Requests
pub mod Artifacts
pub mod Url
pub mod Outcome
mod Examples
use dzta.Prelude.{
  ℕ, Text, Result, ok, err, map_err, ◌++◌, Option, none, some, Bool, true, false, not, ◌&&◌, List,
  [], ◌∷◌, utf8, String, leb, ltb, is_empty, trim, trim_end_matches, starts_with, ends_with,
  if◌then◌else◌,
}
use dzta.Effects.{Io, lift, map_failure, ◌>>=◌}

pub data TransportError : Type 0 where
  http serialization config missing_data : Text → TransportError
  rejected : ℕ → Text → TransportError

pub record TransportConfig : Type 0 where
  pub envoy_url : Text
  -- in seconds
  pub timeout : Option ℕ
  pub proof_header : Text
  pub public_inputs_header : Text
  pub revocation_header : Text
  pub request_path : Text

unfoldable pub new_config : Text → TransportConfig
new_config envoy_url = record {
  envoy_url = envoy_url;
  timeout = some 30;
  proof_header = utf8 "x-dzta-proof";
  public_inputs_header = utf8 "x-dzta-public-inputs";
  revocation_header = utf8 "x-dzta-revocation-id";
  request_path = utf8 "/api/v1/resource";
}

abbrev pub is_blank : Text → Bool
is_blank s = is_empty (trim s)

abbrev config_error : String → Result TransportError (Unit {0})
config_error message = err (config (utf8 message))

pub validated : TransportConfig → Result TransportError (Unit {0})
validated c =
    if is_blank c.envoy_url
    then config_error "envoy_url must not be empty"
    else if is_blank c.proof_header
    then config_error "proof_header must not be empty"
    else if is_blank c.public_inputs_header
    then config_error "public_inputs_header must not be empty"
    else if is_blank c.revocation_header
    then config_error "revocation_header must not be empty"
    else ok tt

-- `Payload` is serde_json::Value. A map is the list of its entries, and a time its text.
pub record ProofRequest (Payload : Type 0) : Type 0 where
  pub request_id : Text
  pub device_id : Text
  pub edge_id : Text
  pub action : Text
  pub payload : Payload
  pub proof : Option Text
  pub public_inputs : Option Text
  pub revocation_id : Option Text
  pub metadata : List (Text × Text)

pub record ProofArtifact : Type 0 where
  pub request_id : Text
  pub device_id : Text
  pub edge_id : Text
  pub proof : Text
  pub public_inputs : Text
  pub revocation_id : Option Text
  pub status : Text
  pub metadata : List (Text × Text)
  pub collected_at : Text

pub record ProofEnvelope : Type 0 where
  pub request_id : Text
  pub status : Text
  pub message : Text
  pub artifact : Option ProofArtifact
  pub submitted_at : Text

pub record HeaderBundle : Type 0 where
  pub proof : Option Text
  pub public_inputs : Option Text
  pub revocation_id : Option Text

-- A header for a value that is there and not blank.
abbrev pub header_for : Text → Option Text → List (Text × Text)
header_for name none = []
header_for name (some value) = if not (is_blank value) then (name, value) ∷ [] else []

unfoldable pub proof_headers : TransportConfig → HeaderBundle → List (Text × Text)
proof_headers c bundle =
    header_for c.proof_header bundle.proof
    ++ (header_for c.public_inputs_header bundle.public_inputs
        ++ header_for c.revocation_header bundle.revocation_id)

abbrev slash : Text
slash = b'/' ∷ []

abbrev path_or : Option Text → Text → Text
path_or none default = default
path_or (some path) default = path

pub target_url : TransportConfig → Option Text → Text
target_url c path =
    let env_url = trim c.envoy_url in
    let target = path_or path c.request_path in
    if ends_with env_url slash && starts_with target slash
    then trim_end_matches b'/' env_url ++ target
    else if not (ends_with env_url slash) && not (starts_with target slash)
    then env_url ++ (slash ++ target)
    else env_url ++ target

pub data Method : Type 0 where
  get_method post_method : Method

pub record Request : Type 0 where
  pub method : Method
  pub url : Text
  pub headers : List (Text × Text)
  pub body : Option Text

-- A response, and what reading its text gives.
pub record Response : Type 0 where
  pub status : ℕ
  pub text : Result Text Text

-- reqwest's client, serde_json at the types of this file, and Uuid::new_v4.
pub record Gateway (Payload World : Type 0) : Type 0 where
  pub send : Request → World → Result Text Response × World
  pub request_json : ProofRequest Payload → Text
  pub artifact_json : ProofArtifact → Text
  pub envelope_from_str : Text → Result Text ProofEnvelope
  pub artifact_from_str : Text → Result Text ProofArtifact
  pub new_uuid : World → Text × World

-- parse_json, over serde_json::from_str at the type.
pub parse_json : {A : Type 0} → (Text → Result Text A) → Response → Result TransportError A
parse_json from_str r = elim r.text [
  | err e ↦ err (serialization (utf8 "failed to read gateway response: " ++ e))
  | ok body ↦
      map_err
        (λ e.
          serialization
            (utf8 "failed to decode gateway response: " ++ (e ++ (utf8 "; body=" ++ body))))
        (from_str body)
]

abbrev body_or_note : Result Text Text → Text
body_or_note (ok body) = body
body_or_note (err e) = utf8 "failed to read body"

module _ {Payload World : Type 0} (gateway : Gateway Payload World) where
  open gateway use {
    send, request_json, artifact_json, envelope_from_str, artifact_from_str, new_uuid,
  }

  pub handle_response : Response → Result TransportError ProofEnvelope
  handle_response r =
      if not (leb 200 r.status && ltb r.status 300)
      then err (rejected r.status (body_or_note r.text))
      else parse_json envelope_from_str r

  abbrev sent : Request → Io World TransportError Response
  sent req world = map_failure http (send req world)

  unfoldable pub proof_request : TransportConfig → ProofRequest Payload → Request
  proof_request c req = record {
    method = post_method;
    url = target_url c none;
    headers =
        (utf8 "Content-Type", utf8 "application/json")
        ∷ (utf8 "X-DZTA-Request-Id", req.request_id)
        ∷ (utf8 "X-DZTA-Device-Id", req.device_id)
        ∷ (utf8 "X-DZTA-Edge-Id", req.edge_id)
        ∷ (utf8 "X-DZTA-Action", req.action)
        ∷ proof_headers c (record {
          proof = req.proof;
          public_inputs = req.public_inputs;
          revocation_id = req.revocation_id;
        });
    body = some (request_json req);
  }

  pub submit_proof_request :
      TransportConfig → ProofRequest Payload → Io World TransportError ProofEnvelope
  unfolding proof_request
  submit_proof_request c req = do answer ← sent (proof_request c req); lift (handle_response answer)

  unfoldable pub result_request : TransportConfig → ProofArtifact → Request
  result_request c artifact = record {
    method = post_method;
    url = target_url c none;
    headers =
        (utf8 "Content-Type", utf8 "application/json")
        ∷ (utf8 "X-DZTA-Request-Id", artifact.request_id)
        ∷ (utf8 "X-DZTA-Device-Id", artifact.device_id)
        ∷ (utf8 "X-DZTA-Edge-Id", artifact.edge_id)
        ∷ (utf8 "X-DZTA-Status", artifact.status)
        ∷ proof_headers c (record {
          proof = some artifact.proof;
          public_inputs = some artifact.public_inputs;
          revocation_id = artifact.revocation_id;
        });
    body = some (artifact_json artifact);
  }

  pub submit_proof_result : TransportConfig → ProofArtifact → Io World TransportError ProofEnvelope
  unfolding result_request
  submit_proof_result c artifact = do
    answer ← sent (result_request c artifact)
    lift (handle_response answer)

  pub collect_proof : TransportConfig → Text → Io World TransportError ProofArtifact
  collect_proof c request_id = do
    answer ← sent (record {
      method = get_method;
      url = target_url c (some (utf8 "/api/v1/resource/" ++ request_id));
      headers = (utf8 "X-DZTA-Request-Id", request_id) ∷ [];
      body = none;
    })
    lift (parse_json artifact_from_str answer)

  pub request_proof :
      TransportConfig → Text → Text → Text → Payload → Io World TransportError ProofEnvelope
  request_proof c device_id edge_id action payload world =
      let (request_id, drawn) = new_uuid world in
      submit_proof_request c
        (record {
          request_id = request_id;
          device_id = device_id;
          edge_id = edge_id;
          action = action;
          payload = payload;
          proof = none;
          public_inputs = none;
          revocation_id = none;
          metadata = [];
        })
        drawn
