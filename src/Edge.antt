-- ===== src/Edge.antt =====
-- dzta-edge-wasm/src/lib.rs: the Envoy filter that admits or refuses a request.
mod Examples
pub mod Path
pub mod Gate
pub mod Revocation
pub mod Acknowledged
use dzta.Prelude.{
  ℕ, Text, Result, ok, err, map_err, ◌>>=◌, ◌++◌, Option, none, some, Bool, true, false, not, ◌||◌,
  List, [], ◌∷◌, utf8, text_eq, starts_with, split, is_empty, find_map, get_elem?, if◌then◌else◌,
}
use dzta.Interfaces.Groth16.{Base64, Groth16}
use dzta.Interfaces.SharedData.{SharedData}

pub record PluginConfig : Type 0 where
  pub mode : Text
  pub admin_token : Text

-- The root context's configuration after `on_configure`, which reads it with serde_json::from_slice and
-- keeps what it had where there is none or it does not parse.
pub on_configure : (Text → Result Text PluginConfig) → Option Text → PluginConfig → PluginConfig
on_configure config_from_slice none config = config
on_configure config_from_slice (some config_bytes) config = elim (config_from_slice config_bytes) [
  | ok parsed ↦ parsed
  | err e ↦ config
]

-- The prepared key, from the outcome of deserialising VK_BYTES.
pub get_pvk : {Key Prepared : Type 0} → (Key → Prepared) → Result Text Key → Option Prepared
get_pvk prepare_verifying_key (ok vk) = some (prepare_verifying_key vk)
get_pvk prepare_verifying_key (err e) = none

-- A request as the filter sees it: `get_http_request_header`.
abbrev pub Headers : Type 0
Headers = Text → Option Text

pub data Action : Type 0 where
  continue pause : Action

pub record HttpResponse : Type 0 where
  pub status : ℕ
  pub body : Text

-- What the filter tells the proxy: the action, and the response that it sent, if any.
pub record Verdict : Type 0 where
  pub action : Action
  pub response : Option HttpResponse

abbrev pub refuse : ℕ → Text → Verdict
refuse status body = record {
  action = pause;
  response = some (record { status = status; body = body });
}

abbrev pass : Verdict
pass = record { action = continue; response = none }

-- Rust's `unwrap_or_default` on a header.
abbrev pub unwrap_or_default : Option Text → Text
unwrap_or_default none = []
unwrap_or_default (some s) = s

abbrev pub path_of : Headers → Text
path_of header = unwrap_or_default (header (utf8 ":path"))

abbrev pub token_of : Headers → Text
token_of header = unwrap_or_default (header (utf8 "X-Wasm-Admin-Token"))

-- The value of a pair `id=…` of the query.
unfoldable pub id_value : Text → Option Text
id_value pair =
    let parts = split b'=' pair in
    elim (get_elem? parts 0) [
      | none ↦ none
      | some name ↦ if text_eq name (utf8 "id") then get_elem? parts 1 else none
    ]

-- `path.split('?').nth(1)`, then the first pair of the query that is an `id=…`.
pub target_id : Text → Option Text
unfolding id_value
target_id path = elim (get_elem? (split b'?' path) 1) [
  | none ↦ none
  | some query ↦ find_map id_value (split b'&' query)
]

unfoldable pub revoked_key : Text → Text
revoked_key id = utf8 "revoked." ++ id

abbrev pub yes_bytes : Text
yes_bytes = utf8 "true"

abbrev pub admin_prefix : Text
admin_prefix = utf8 "/_wasm_admin/revoke"

module _ {F Circuit Proof ProvingKey VerifyingKey : Type 0} (base64 : Base64)
    (groth : Groth16 F Circuit Proof ProvingKey VerifyingKey) where
  open base64 use {decode}
  open groth use {deserialize_proof, deserialize_inputs, verify_proof}

  -- A failure carries the message that the filter logs.
  unfoldable pub verify_zkp : VerifyingKey → Text → Text → Result Text Bool
  verify_zkp pvk proof_b64 inputs_b64 = do
    proof_bytes ← map_err (λ e. utf8 "Base64 proof decode error: " ++ e) (decode proof_b64)
    inputs_bytes ←
        map_err (λ e. utf8 "Base64 public inputs decode error: " ++ e) (decode inputs_b64)
    proof ← map_err (λ e. utf8 "Proof deserialization error: " ++ e) (deserialize_proof proof_bytes)
    public_inputs ←
        map_err (λ e. utf8 "Inputs deserialization error: " ++ e) (deserialize_inputs inputs_bytes)
    map_err (λ e. utf8 "Verification algorithm error: " ++ e) (verify_proof pvk proof public_inputs)

abbrev answer : Result Text Bool → Verdict
answer (ok true) = pass
answer (ok false) = refuse 403 (utf8 "Forbidden: Invalid ZK Proof\n")
answer (err e) = refuse 400 (utf8 "Bad Request: Malformed ZKP Data\n")

-- `Some(val) if val == b"true"`
abbrev pub is_true : Option Text → Bool
is_true none = false
is_true (some val) = text_eq val yes_bytes

module _ {Store : Type 0} (host : SharedData Store) where
  open host use {get_shared_data, set_shared_data}

  abbrev stored : Result ℕ Store → Store → Verdict × Store
  stored (ok s') s = (refuse 200 (utf8 "OK: Credential Revocation Recorded\n"), s')
  stored (err e) s = (refuse 500 (utf8 "Internal Error: Storage Failure\n"), s)

  unfoldable pub record_revocation : Option Text → Store → Verdict × Store
  record_revocation none s = (refuse 400 (utf8 "Bad Request: Missing 'id' parameter\n"), s)
  record_revocation (some []) s = (refuse 400 (utf8 "Bad Request: Missing 'id' parameter\n"), s)
  record_revocation (some (c ∷ id)) s =
      stored (set_shared_data (revoked_key (c ∷ id)) yes_bytes s) s

  -- The admin interceptor.
  pub admin_request : PluginConfig → Headers → Text → Store → Verdict × Store
  admin_request config header path s =
      let provided_token = token_of header in
      if not (text_eq config.mode (utf8 "admin_enabled"))
      then (refuse 403 (utf8 "Forbidden: Admin endpoint disabled\n"), s)
      else if is_empty provided_token || not (text_eq provided_token config.admin_token)
      then (refuse 401 (utf8 "Unauthorized: Invalid Admin Token\n"), s)
      else record_revocation (target_id path) s

  module _ {F Circuit Proof ProvingKey VerifyingKey : Type 0} (base64 : Base64)
      (groth : Groth16 F Circuit Proof ProvingKey VerifyingKey) where
    abbrev check_headers : VerifyingKey → Option Text → Option Text → Option Text → Store → Verdict
    check_headers pvk (some proof) (some inputs) (some rev_id) s =
        if is_true (get_shared_data (revoked_key rev_id) s)
        then refuse 403 (utf8 "Access Revoked\n")
        else answer (verify_zkp base64 groth pvk proof inputs)
    check_headers pvk _ _ _ s = refuse 401 (utf8 "Unauthorized: Missing dZTA Headers\n")

    -- The gatekeeper of the public traffic; the first argument is `get_pvk()`.
    pub gate_request : Option VerifyingKey → Headers → Store → Verdict
    gate_request none header s = refuse 500 (utf8 "Internal Error: Missing VK\n")
    gate_request (some pvk) header s =
        check_headers pvk (header (utf8 "x-dzta-proof")) (header (utf8 "x-dzta-public-inputs"))
          (header (utf8 "x-dzta-revocation-id")) s

    pub on_http_request_headers :
        PluginConfig → Option VerifyingKey → Headers → Store → Verdict × Store
    on_http_request_headers config pvk header s =
        let path = path_of header in
        if starts_with path admin_prefix
        then admin_request config header path s
        else (gate_request pvk header s, s)

    -- Requests in the order in which the host hands them to the filter's contexts, each with the
    -- configuration of its listener. The store is the only state that they share.
    pub serve : Option VerifyingKey → List (PluginConfig × Headers) → Store → Store
    serve pvk [] s = s
    serve pvk ((config, header) ∷ rest) s =
        serve pvk rest (on_http_request_headers config pvk header s).1
