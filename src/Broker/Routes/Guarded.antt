-- ===== src/Broker/Routes/Guarded.antt =====
-- Secrets are asked for only after the quote was verified, and go to the key that the quote binds.
use dzta.Prelude.{
  ok_or-eq-ok, ℕ, ◌≡◌, refl, sym, ap, ◌∙◌, ◌⊎◌, inl, inr, Text, Result, ok, some, Bool-cases,
  Result-cases, is_empty, trim, ◌||◌, arith, ok-injective,
}
use dzta.Errors.{BrokerError}
use dzta.Interfaces.Crypto.{Sha256}
use dzta.Interfaces.Groth16.{Base64}
use dzta.Interfaces.Http.{Client, Rsa, JsonArrays}
use dzta.Interfaces.Json.{Json}
use dzta.Effects.{and_then-eq-ok, map_failure-eq-ok, lift-eq-ok, lift, map_failure}
use dzta.Broker.{AppState, ApiError, VaultDatakeyEngine, VerifiedEnclave}
use dzta.Broker.Quote.{QuoteLibrary, verify_sgx_quote}
use dzta.Broker.Quote.Accepted.{Attested, verify_sgx_quote_iff}
use dzta.Broker.Vault.{VaultReaders, unwrap_datakey_for_enclave}
use dzta.Broker.Routes.{
  UnwrapDatakeyRequest, UnwrapDatakeyResponse, ReleaseRequest, unwrap, unwrap_datakey, release_key,
  engine_of, from_broker_error,
}

-- A step at another key and world that are the same, with another name for its result.
same_step :
    {World E : Type 0} (step : Text → World → Result E Text × World) {key key' : Text}
    {world world' : World} {value value' : Text} {middle middle' : World}
    → step key world ≡ (ok value, middle)
    → key ≡ key'
    → world ≡ world'
    → value ≡ value'
    → middle ≡ middle'
    → step key' world' ≡ (ok value', middle')
same_step step h key_eq world_eq value_eq middle_eq =
    rw (← key_eq, ← world_eq, ← value_eq, ← middle_eq) h

module _ {Value Key World Collateral : Type 0} (sha : Sha256) (base64 : Base64) (json : Json Value)
    (arrays : JsonArrays json) (readers : VaultReaders) (client : Client World)
    (rsa : Rsa Key World) (library : QuoteLibrary Collateral) (display : BrokerError → Text) where
  -- Some enclave was attested for the session of a request.
  abbrev pub IsAttested : AppState World → Text → Text → ℕ → Type 0
  IsAttested state quote key level =
      (enclave : VerifiedEnclave) × Attested sha base64 library state quote key level enclave

  unwrap-guarded :
      (state : AppState World) (req : UnwrapDatakeyRequest) (world : World)
      → ((unwrap sha base64 json arrays readers client rsa library display state req world).1
          ≡ world)
        ⊎ IsAttested state req.quote req.enclave_public_key req.required_clearance_level
  unfolding unwrap
  unwrap-guarded state req world =
      elim (Result-cases (
        verify_sgx_quote sha base64 library state req.quote req.enclave_public_key
          req.required_clearance_level)) [
            | inl (enclave, verified) ↦ inr (
              enclave,
              (verify_sgx_quote_iff sha base64 library state req.quote req.enclave_public_key
                    req.required_clearance_level enclave).0
                  verified,
            )
            | inr (e, refused) ↦ inl (ground arith)
          ]

  -- Unwrapping leaves the world as it was unless the quote of the request was verified for its public
  -- key and its required level.
  pub unwrap_datakey-guarded :
      (state : AppState World) (req : UnwrapDatakeyRequest) (world : World)
      → ((unwrap_datakey sha base64 json arrays readers client rsa library display state req
            world).1
          ≡ world)
        ⊎ IsAttested state req.quote req.enclave_public_key req.required_clearance_level
  unfolding unwrap_datakey
  unwrap_datakey-guarded state req world = elim (Bool-cases (is_empty (trim req.quote))) [
    | inl missing ↦ inl (rw (missing))
    | inr given ↦
        elim (Bool-cases
          (is_empty (trim req.wallet_ciphertext) || is_empty (trim req.seed_ciphertext))) [
            | inl missing ↦ inl (rw (given, missing))
            | inr stored ↦ rw (unwrap_datakey, given, stored) (unwrap-guarded state req world)
          ]
  ]

  -- Releasing, with whatever provider, leaves the world as it was unless the quote of the request was
  -- verified for its public key and its required level.
  pub release_key-guarded :
      (state : AppState World) (req : ReleaseRequest) (world : World)
      → ((release_key sha base64 json arrays readers client rsa library display state req world).1
          ≡ world)
        ⊎ IsAttested state req.quote req.enclave_public_key req.required_clearance_level
  unfolding release_key
  release_key-guarded state req world =
      elim (Result-cases (
        verify_sgx_quote sha base64 library state req.quote req.enclave_public_key
          req.required_clearance_level)) [
            | inl (enclave, verified) ↦ inr (
              enclave,
              (verify_sgx_quote_iff sha base64 library state req.quote req.enclave_public_key
                    req.required_clearance_level enclave).0
                  verified,
            )
            | inr (e, refused) ↦ inl (rw (release_key, refused))
          ]

  -- The steps of an unwrapping that succeeds.
  pub record Unwrapped (state : AppState World) (req : UnwrapDatakeyRequest) (world last : World)
      (out : UnwrapDatakeyResponse) : Type 0 where
    pub engine : VaultDatakeyEngine
    pub enclave : VerifiedEnclave
    pub middle : World
    pub has_engine : state.datakey_engine ≡ some engine
    pub attested :
        Attested sha base64 library state req.quote req.enclave_public_key
          req.required_clearance_level enclave
    pub wallet :
        unwrap_datakey_for_enclave base64 json arrays readers client rsa display engine
          req.wallet_ciphertext req.enclave_public_key world
        ≡ (ok out.encrypted_wallet_key_for_enclave, middle)
    pub seed :
        unwrap_datakey_for_enclave base64 json arrays readers client rsa display engine
          req.seed_ciphertext req.enclave_public_key middle
        ≡ (ok out.encrypted_master_seed_for_enclave, last)

  abbrev verified : AppState World → UnwrapDatakeyRequest → Result ApiError VerifiedEnclave
  verified state req =
      verify_sgx_quote sha base64 library state req.quote req.enclave_public_key
        req.required_clearance_level

  abbrev engine_of' : AppState World → Result ApiError VaultDatakeyEngine
  engine_of' = engine_of sha base64 json arrays readers client rsa library display

  abbrev rewrapped : VaultDatakeyEngine → Text → Text → World → Result ApiError Text × World
  rewrapped engine ciphertext key world =
      map_failure (from_broker_error sha base64 json arrays readers client rsa library display) (
        unwrap_datakey_for_enclave base64 json arrays readers client rsa display engine ciphertext
          key world)

  unwrap-Unwrapped :
      (state : AppState World) (req : UnwrapDatakeyRequest) (world last : World)
      (out : UnwrapDatakeyResponse)
      → unwrap sha base64 json arrays readers client rsa library display state req world
        ≡ (ok out, last)
      → Unwrapped state req world last out
  unfolding unwrap
  unwrap-Unwrapped state req world last out h =
      let (engine, w1, e1, h1) = and_then-eq-ok (lift (engine_of' state) world) _ h in
      let (enclave, w2, e2, h2) = and_then-eq-ok (lift (verified state req) w1) _ h1 in
      let (wallet, w3, e3, h3) =
        and_then-eq-ok (rewrapped engine req.wallet_ciphertext enclave.enclave_public_key w2) _
          h2 in
      let (seed, w4, e4, h4) =
        and_then-eq-ok (rewrapped engine req.seed_ciphertext enclave.enclave_public_key w3) _ h3 in
      let (has_engine, same₁) = lift-eq-ok _ e1 in
      let (accepted, same₂) = lift-eq-ok _ e2 in
      let attested =
        (verify_sgx_quote_iff sha base64 library state req.quote req.enclave_public_key
            req.required_clearance_level enclave).0
          accepted in
      let key_eq = ap (λ e. e.enclave_public_key) attested.result in
      let out_eq = ok-injective (ap (λ p. p.0) h4) in
      record {
        engine = engine;
        enclave = enclave;
        middle = w3;
        has_engine = ok_or-eq-ok state.datakey_engine _ has_engine;
        attested = attested;
        wallet =
            same_step
              (unwrap_datakey_for_enclave base64 json arrays readers client rsa display engine
                req.wallet_ciphertext)
              (map_failure-eq-ok _ _ e3) key_eq (sym (same₁ ∙ same₂))
              (ap (λ o. o.encrypted_wallet_key_for_enclave) out_eq) refl;
        seed =
            same_step
              (unwrap_datakey_for_enclave base64 json arrays readers client rsa display engine
                req.seed_ciphertext)
              (map_failure-eq-ok _ _ e4) key_eq refl
              (ap (λ o. o.encrypted_master_seed_for_enclave) out_eq) (ap (λ p. p.1) h4);
      }

  -- An unwrapping that succeeds was attested, and its two secrets are what the engine unwraps of the
  -- request's ciphertexts for the public key that the quote binds, one after the other.
  pub unwrap_datakey-Unwrapped :
      (state : AppState World) (req : UnwrapDatakeyRequest) (world last : World)
      (out : UnwrapDatakeyResponse)
      → unwrap_datakey sha base64 json arrays readers client rsa library display state req world
        ≡ (ok out, last)
      → Unwrapped state req world last out
  unfolding unwrap_datakey
  unwrap_datakey-Unwrapped state req world last out h =
      elim (Bool-cases (is_empty (trim req.quote))) [
        | inl missing ↦ absurd (let e = rw (unwrap_datakey, missing) at h in cc (e))
        | inr given ↦
            elim (Bool-cases
              (is_empty (trim req.wallet_ciphertext) || is_empty (trim req.seed_ciphertext))) [
                | inl missing ↦ absurd (let e = rw (unwrap_datakey, given, missing) at h in cc (e))
                | inr stored ↦
                    unwrap-Unwrapped state req world last out
                      (rw (unwrap_datakey, given, stored) at h)
              ]
      ]
