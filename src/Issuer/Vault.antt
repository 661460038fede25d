-- ===== src/Issuer/Vault.antt =====
-- VaultCredentialSigner of dzta-issuer/src/signer.rs.
use dzta.Prelude.{
  Text, Result, ok, err, map_err, ok_or, ◌++◌, ◌&&◌, Option, none, some, [], ◌∷◌, utf8, ◌==◌, leb,
  ltb, ℕ, length, if◌then◌else◌, String, trim_end_matches, starts_with, HashMap, lookup,
}
use dzta.Errors.{
  WalletError, WalletResult, BrokerError, signing_error, network_error, serialization_error,
  configuration, response,
}
use dzta.Effects.{Io, lift, map_failure, ◌>>=◌}
use dzta.Interfaces.Groth16.{Base64}
use dzta.Interfaces.Host.{Environment}
use dzta.Interfaces.Http.{HttpResponse}
use dzta.Interfaces.Json.{Json}
use dzta.Interfaces.Signatures.{Multibase, BearerClient}
use dzta.Issuer.{CredentialSignerBackend}
use dzta.Issuer.Signer.{signing_failure}

pub record VaultCredentialSigner : Type 0 where
  pub address : Text
  pub token : Text
  pub transit_key : Text

-- VaultKeyResponse with its data and its key versions inlined.
pub record VaultKeyResponse (Value : Type 0) : Type 0 where
  pub key_type : Option Text
  pub latest_version : Value
  pub keys : HashMap Text

-- serde_json::from_str at VaultKeyResponse and at VaultSignResponse, whose data is its signature, and
-- the text of a JSON number.
pub record VaultKeyReaders (Value : Type 0) : Type 0 where
  pub key_response : Text → Result Text (VaultKeyResponse Value)
  pub sign_response : Text → Result Text Text
  pub number_text : Value → Option Text

-- What follows the last occurrence of `x`: `rsplit(x).next()`, which is never none.
abbrev pub segment : ℕ → Text → Text → Text
segment x found [] = found
segment x found (c ∷ s) = if c == x then segment x s s else segment x found s

abbrev pub last_segment : ℕ → Text → Text
last_segment x s = segment x s s

-- VaultCredentialSigner::new, after the client was built.
abbrev pub new_signer : Text → Text → Text → VaultCredentialSigner
new_signer address token transit_key = record {
  address = trim_end_matches b'/' address;
  token = token;
  transit_key = transit_key;
}

-- `build` is build_vault_client.
module _ {World Client : Type 0} (environment : Environment World)
    (build : Io World BrokerError Client) where
  abbrev required : String → Io World BrokerError Text
  required name = λ world.
      lift
        (ok_or (environment.var (utf8 name) world)
          (configuration (utf8 name ++ utf8 " is required")))
        world

  unfoldable pub from_env : Io World BrokerError (Client × VaultCredentialSigner)
  from_env = do
    address ← required "DZTA_VAULT_ADDR"
    token ← required "DZTA_VAULT_TOKEN"
    key ← required "DZTA_CREDENTIAL_SIGNING_KEY"
    client ← build
    lift (ok (client, new_signer address token key))

-- `standard` and `url_safe` are base64's STANDARD and URL_SAFE_NO_PAD.
module _ {Value World : Type 0} (json : Json Value) (readers : VaultKeyReaders Value)
    (standard url_safe : Base64) (multibase : Multibase) (client : BearerClient World)
    (vault : VaultCredentialSigner) where
  open json use {object, string, to_string}

  abbrev pub transit_url : String → Text
  transit_url path = vault.address ++ (utf8 path ++ vault.transit_key)

  abbrev network_failure : String → Text → WalletError
  network_failure message e = network_error (utf8 message ++ e)

  unfoldable pub read_response :
      {A : Type 0} → (Text → Result Text A) → HttpResponse → Io World WalletError A
  read_response read answer = do
    body ← (λ world.
        map_failure (network_failure "Vault response read failed: ") (client.text answer world))
    _ ← lift (
        if leb 200 answer.status && ltb answer.status 300
        then ok tt
        else err (
            signing_error (
              utf8 "Vault returned " ++ (client.status_text answer.status ++ (utf8 ": " ++ body)))))
    lift (map_err serialization_error (read body))

  unfoldable pub get_key_type : Io World WalletError Text
  get_key_type = do
    answer ← (λ world.
        map_failure (network_failure "Vault key info request failed: ")
          (client.get (transit_url "/v1/transit/keys/") vault.token world))
    key ← read_response readers.key_response answer
    lift (ok (elim key.key_type [ none ↦ utf8 "ed25519" | some t ↦ t ]))

  -- The version under which the keys are listed.
  abbrev version_text : Value → WalletResult Text
  version_text v = elim (readers.number_text v) [
    | some s ↦ ok s
    | none ↦ ok_or (json.as_str v) (signing_error (utf8 "Invalid latest_version format"))
  ]

  unfoldable pub vault_public_key_multibase : Io World WalletError Text
  vault_public_key_multibase = do
    answer ← (λ world.
        map_failure (network_failure "Vault public-key request failed: ")
          (client.get (transit_url "/v1/transit/keys/") vault.token world))
    key ← read_response readers.key_response answer
    version_str ← lift (version_text key.latest_version)
    encoded ← lift (
        ok_or (lookup version_str key.keys)
          (signing_error (utf8 "Vault returned no latest public key")))
    public_key ←
        lift
          (map_err (signing_failure "Vault public-key decoding failed: ") (standard.decode encoded))
    lift (
        if length public_key == 32
        then ok (multibase.encode public_key)
        else err (signing_error (utf8 "Vault Ed25519 public key must be 32 bytes")))

  -- The body of the signing request for a type of key.
  unfoldable pub signing_body : Text → Text → Value
  signing_body key_type payload =
      let input : Text × Value = (utf8 "input", string (standard.encode payload)) in
      let digest : Text × Value = (utf8 "hash_algorithm", string (utf8 "sha2-256")) in
      if starts_with key_type (utf8 "rsa")
      then object (input ∷ digest ∷ (utf8 "signature_algorithm", string (utf8 "pkcs1v15")) ∷ [])
      else if starts_with key_type (utf8 "ecdsa")
      then object (input ∷ digest ∷ [])
      else object (input ∷ [])

  -- The proof value from the signature that Vault has returned.
  unfoldable pub proof_value_of : Text → WalletResult Text
  proof_value_of signature = elim (standard.decode (last_segment b':' signature)) [
    | ok bytes ↦ ok (b'u' ∷ url_safe.encode bytes)
    | err e ↦ err (signing_failure "Vault signature decoding failed: " e)
  ]

  unfoldable pub vault_sign : Text → Io World WalletError Text
  vault_sign payload = do
    key_type ← get_key_type
    answer ← (λ world. map_failure (network_failure "Vault signing request failed: ") (
        client.post (transit_url "/v1/transit/sign/") vault.token
          (to_string (signing_body key_type payload)) world))
    signature ← read_response readers.sign_response answer
    lift (proof_value_of signature)

  -- The signer as a backend.
  abbrev pub vault_backend : CredentialSignerBackend World
  vault_backend = record { public_key_multibase = vault_public_key_multibase; sign = vault_sign }

  -- `body["data"]["ciphertext"].as_str()`
  abbrev ciphertext_of : Value → Option Text
  ciphertext_of body = elim (json.get body (utf8 "data")) [
    | none ↦ none
    | some fields ↦ elim (json.get fields (utf8 "ciphertext")) [
      | none ↦ none
      | some v ↦ json.as_str v
    ]
  ]

  -- VaultEncryptor::encrypt, which does not look at the status.
  unfoldable pub vault_encrypt : Text → Io World BrokerError Text
  vault_encrypt payload = do
    answer ← (λ world.
        map_failure (λ e. response (utf8 "Vault encrypt request failed: " ++ e))
          (client.post (transit_url "/v1/transit/encrypt/") vault.token
            (to_string (object ((utf8 "plaintext", string (standard.encode payload)) ∷ []))) world))
    body ← (λ world.
        map_failure (λ e. response (utf8 "Vault encrypt response read failed: " ++ e))
          (client.text answer world))
    v ← lift (
        map_err (λ e. response (utf8 "Vault encrypt response read failed: " ++ e))
          (json.from_slice body))
    lift (ok_or (ciphertext_of v) (response (utf8 "Vault returned no ciphertext")))
