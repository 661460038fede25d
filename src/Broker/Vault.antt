-- ===== src/Broker/Vault.antt =====
-- The Vault calls of dzta-attestation-broker/src/lib.rs: VaultTransitProvider and VaultDatakeyEngine.
use dzta.Prelude.{
  String, ℕ, Text, Result, ok, err, map_err, ok_or, ◌++◌, Option, none, some, Bool, true, false,
  ◌&&◌, List, [], ◌∷◌, utf8, leb, ltb, trim_end_matches,
}
use mathlib.Core.List.{filter_map}
use dzta.Errors.{BrokerError, request, provider, response}
use dzta.Interfaces.Groth16.{Base64}
use dzta.Interfaces.Http.{HttpResponse, Client, Rsa, JsonArrays}
use dzta.Interfaces.Json.{Json}
use dzta.Effects.{Io, lift, map_failure, ◌>>=◌}
use dzta.Broker.{VaultTransitProvider, VaultDatakeyEngine, ProvisioningDataKeyResponse}

-- VaultDecryptResponse, VaultDatakeyResponse and VaultSeedResponse, with their data inlined.
pub record VaultDecryptResponse : Type 0 where
  pub plaintext : Option Text
  pub errors : List Text

pub record VaultDatakeyResponse : Type 0 where
  pub plaintext : Text
  pub ciphertext : Text
  pub errors : List Text

pub record VaultSeedResponse : Type 0 where
  pub random_bytes : Text
  pub errors : List Text

-- serde_json::from_slice at the three types.
pub record VaultReaders : Type 0 where
  pub decrypt_response : Text → Result Text VaultDecryptResponse
  pub datakey_response : Text → Result Text VaultDatakeyResponse
  pub seed_response : Text → Result Text VaultSeedResponse

-- `errors.join(", ")`
abbrev join : List Text → Text
join [] = []
join (e ∷ []) = e
join (e ∷ f ∷ es) = e ++ (utf8 ", " ++ join (f ∷ es))

-- StatusCode::status_is_success
abbrev status_is_success : ℕ → Bool
status_is_success status = leb 200 status && ltb status 300

abbrev pub response_error : String → Text → BrokerError
response_error message e = response (utf8 message ++ e)

-- The error of a response whose status is no success.
abbrev pub require_success : ℕ → BrokerError → Result BrokerError (Unit {0})
require_success status e = elim (status_is_success status) [ true ↦ ok tt | false ↦ err e ]

module _ {Value Key World : Type 0} (base64 : Base64) (json : Json Value) (arrays : JsonArrays json)
    (readers : VaultReaders) (client : Client World) (rsa : Rsa Key World) where
  open json use {from_slice, get, as_str, object, string, to_string}

  abbrev post :
      Text
      → List (Text × Text)
      → Option Text
      → (Text → BrokerError)
      → Io World BrokerError HttpResponse
  post url headers body failure world =
      map_failure failure (client.send (record { url = url; headers = headers; body = body }) world)

  abbrev vault_token_header : Text → List (Text × Text)
  vault_token_header token = (utf8 "X-Vault-Token", token) ∷ []

  abbrev body_of : String → Text → Option Text
  body_of name value = some (to_string (object ((utf8 name, string value) ∷ [])))

  -- VaultTransitProvider::decrypt_envelope
  unfoldable pub decrypt_envelope : VaultTransitProvider → Text → Io World BrokerError Text
  decrypt_envelope vault ciphertext = do
    answer ←
        post (vault.address ++ (utf8 "/v1/transit/decrypt/" ++ vault.transit_key))
          (vault_token_header vault.token) (body_of "ciphertext" ciphertext) request
    body ← lift (map_err request (readers.decrypt_response answer.body))
    _ ← lift (require_success answer.status (provider answer.status (join body.errors)))
    plaintext ← lift (ok_or body.plaintext (response (utf8 "Vault returned no plaintext")))
    lift (map_err (response_error "invalid Vault plaintext: ") (base64.decode plaintext))

  -- VaultDatakeyEngine::wrap_bytes_for_enclave
  unfoldable pub wrap_bytes_for_enclave : Text → Text → Io World BrokerError Text
  wrap_bytes_for_enclave raw_bytes enclave_public_key_pem = do
    key ← lift (
        map_err (response_error "invalid enclave public key: ")
          (rsa.from_public_key_pem enclave_public_key_pem))
    encrypted_bytes ← (λ world.
        map_failure (response_error "failed to wrap bytes for enclave: ")
          (rsa.encrypt key raw_bytes world))
    lift (ok (base64.encode encrypted_bytes))

  -- VaultSeed::generate_vault_random_seed
  unfoldable pub generate_vault_random_seed : VaultDatakeyEngine → Io World BrokerError Text
  generate_vault_random_seed engine = do
    answer ←
        post (engine.vault_addr ++ utf8 "/v1/transit/random/32")
          (vault_token_header engine.vault_token) (body_of "format" (utf8 "base64")) request
    body ← lift (map_err request (readers.seed_response answer.body))
    _ ← lift (require_success answer.status (provider answer.status (join body.errors)))
    lift (map_err (response_error "invalid Vault random bytes: ") (base64.decode body.random_bytes))

  -- `body["data"][name].as_str()`
  abbrev data_str : Value → String → Option Text
  data_str body name = elim (get body (utf8 "data")) [
    | none ↦ none
    | some fields ↦ elim (get fields (utf8 name)) [ none ↦ none | some v ↦ as_str v ]
  ]

  -- VaultEncryptor::encrypt, which does not look at the status.
  unfoldable pub encrypt : VaultDatakeyEngine → Text → Io World BrokerError Text
  encrypt engine payload = do
    answer ←
        post (engine.vault_addr ++ (utf8 "/v1/transit/encrypt/" ++ engine.secret_key_name))
          ((utf8 "authorization", utf8 "Bearer " ++ engine.vault_token) ∷ [])
          (body_of "plaintext" (base64.encode payload))
          (response_error "Vault encrypt request failed: ")
    body ←
        lift
          (map_err (response_error "Vault encrypt response read failed: ") (from_slice answer.body))
    lift (ok_or (data_str body "ciphertext") (response (utf8 "Vault returned no ciphertext")))

  -- The message of a decrypt response that is no success.
  abbrev decrypt_message : ℕ → Value → Text
  decrypt_message status body =
      let default = utf8 "Vault transit decrypt failed with status " ++ client.status_text status in
      elim (get body (utf8 "errors")) [
        | none ↦ default
        | some errors ↦ elim (arrays.as_array errors) [
          | none ↦ default
          | some items ↦ join (filter_map as_str items)
        ]
      ]

  -- VaultDecryptor::decrypt
  unfoldable pub decrypt : VaultDatakeyEngine → Text → Io World BrokerError Text
  decrypt engine ciphertext = do
    answer ←
        post (engine.vault_addr ++ (utf8 "/v1/transit/decrypt/" ++ engine.secret_key_name))
          (vault_token_header engine.vault_token) (body_of "ciphertext" ciphertext)
          (response_error "Vault decrypt request failed: ")
    body ←
        lift
          (map_err (response_error "Vault decrypt response read failed: ") (from_slice answer.body))
    _ ← lift (require_success answer.status (response (decrypt_message answer.status body)))
    plaintext ← lift (
        ok_or (data_str body "plaintext")
          (response (utf8 "Vault response missing plaintext field")))
    lift (map_err (response_error "invalid Vault plaintext: ") (base64.decode plaintext))

  -- VaultDatakeyEngine::provision_datakey
  unfoldable pub engine_provision_datakey :
      VaultDatakeyEngine → Text → Io World BrokerError ProvisioningDataKeyResponse
  unfolding wrap_bytes_for_enclave generate_vault_random_seed encrypt
  engine_provision_datakey engine enclave_public_key_pem = do
    answer ←
        post
          (engine.vault_addr ++ (utf8 "/v1/transit/datakey/plaintext/" ++ engine.secret_key_name))
          (vault_token_header engine.vault_token) none request
    body ← lift (map_err request (readers.datakey_response answer.body))
    _ ← lift (require_success answer.status (provider answer.status (join body.errors)))
    raw_dek_bytes ←
        lift (map_err (response_error "invalid Vault plaintext: ") (base64.decode body.plaintext))
    encrypted_wallet_key_for_enclave ← wrap_bytes_for_enclave raw_dek_bytes enclave_public_key_pem
    raw_master_seed ← generate_vault_random_seed engine
    seed_ciphertext ← encrypt engine raw_master_seed
    encrypted_master_seed_for_enclave ←
        wrap_bytes_for_enclave raw_master_seed enclave_public_key_pem
    lift (
        ok (record {
          wallet_ciphertext = body.ciphertext;
          encrypted_wallet_key_for_enclave = encrypted_wallet_key_for_enclave;
          seed_ciphertext = seed_ciphertext;
          encrypted_master_seed_for_enclave = encrypted_master_seed_for_enclave;
        }))

  -- VaultDatakeyEngine::unwrap_datakey_for_enclave; `display` is BrokerError's Display.
  unfoldable pub unwrap_datakey_for_enclave :
      (BrokerError → Text) → VaultDatakeyEngine → Text → Text → Io World BrokerError Text
  unfolding decrypt wrap_bytes_for_enclave
  unwrap_datakey_for_enclave display engine wallet_ciphertext enclave_public_key_pem = do
    raw_dek_bytes ←
        (λ world. map_failure (λ e. response (display e)) (decrypt engine wallet_ciphertext world))
    wrap_bytes_for_enclave raw_dek_bytes enclave_public_key_pem

-- VaultDatakeyEngine::with_client
pub with_client : Text → Text → Text → VaultDatakeyEngine
with_client address token transit_key = record {
  vault_addr = trim_end_matches b'/' address;
  vault_token = token;
  secret_key_name = transit_key;
}

-- VaultTransitProvider::new, once the client was built.
pub new_transit_provider : Text → Text → Text → VaultTransitProvider
new_transit_provider address token transit_key = record {
  address = trim_end_matches b'/' address;
  token = token;
  transit_key = transit_key;
}
