-- ===== src/Broker/Routes/Provision.antt =====
-- What a device is provisioned with.
use dzta.Prelude.{
  ok_or-eq-ok, ◌≡◌, sym, ap, ◌∙◌, Text, Result, ok, some, Bool-cases, is_empty, trim, inl, inr,
  ok-injective,
}
use dzta.Errors.{BrokerError}
use dzta.Interfaces.Crypto.{Sha256}
use dzta.Interfaces.Groth16.{Base64}
use dzta.Interfaces.Http.{Client, Rsa, JsonArrays}
use dzta.Interfaces.Json.{Json}
use dzta.Effects.{and_then-eq-ok, map_failure-eq-ok, lift-eq-ok, lift, map_failure}
use dzta.Broker.{AppState, ApiError, VaultDatakeyEngine, ProvisioningDataKeyResponse}
use dzta.Broker.Quote.{QuoteLibrary}
use dzta.Broker.Vault.{
  VaultReaders, engine_provision_datakey, generate_vault_random_seed, encrypt,
  wrap_bytes_for_enclave,
}
use dzta.Broker.Routes.{provision, provision_datakey, engine_of, from_broker_error}

module _ {Value Key World Collateral : Type 0} (sha : Sha256) (base64 : Base64) (json : Json Value)
    (arrays : JsonArrays json) (readers : VaultReaders) (client : Client World)
    (rsa : Rsa Key World) (library : QuoteLibrary Collateral) (display : BrokerError → Text) where
  -- The calls behind a provisioning.
  pub record Provisioned (state : AppState World) (key : Text) (world last : World)
      (out : ProvisioningDataKeyResponse) : Type 0 where
    pub engine : VaultDatakeyEngine
    pub wallet : ProvisioningDataKeyResponse
    pub seed : Text
    pub after_wallet : World
    pub after_seed : World
    pub after_encrypt : World
    pub has_engine : state.datakey_engine ≡ some engine
    pub provisions :
        engine_provision_datakey base64 json arrays readers client rsa engine key world
        ≡ (ok wallet, after_wallet)
    pub generates :
        generate_vault_random_seed base64 json arrays readers client rsa engine after_wallet
        ≡ (ok seed, after_seed)
    pub encrypts :
        encrypt base64 json arrays readers client rsa engine seed after_seed
        ≡ (ok out.seed_ciphertext, after_encrypt)
    pub wraps :
        wrap_bytes_for_enclave base64 json arrays readers client rsa seed key after_encrypt
        ≡ (ok out.encrypted_master_seed_for_enclave, last)
    pub same_ciphertext : out.wallet_ciphertext ≡ wallet.wallet_ciphertext
    pub same_key : out.encrypted_wallet_key_for_enclave ≡ wallet.encrypted_wallet_key_for_enclave

  abbrev engine_result : AppState World → Result ApiError VaultDatakeyEngine
  engine_result = engine_of sha base64 json arrays readers client rsa library display

  abbrev api : {A : Type 0} → Result BrokerError A × World → Result ApiError A × World
  api = map_failure (from_broker_error sha base64 json arrays readers client rsa library display)

  provision-Provisioned :
      (state : AppState World) (key : Text) (engine : VaultDatakeyEngine) (world last : World)
      (out : ProvisioningDataKeyResponse)
      → state.datakey_engine ≡ some engine
      → provision sha base64 json arrays readers client rsa library display engine key world
        ≡ (ok out, last)
      → Provisioned state key world last out
  unfolding provision
  provision-Provisioned state key engine world last out given h =
      let (wallet, w1, e1, h1) =
        and_then-eq-ok
          (api (engine_provision_datakey base64 json arrays readers client rsa engine key world)) _
          h in
      let (seed, w2, e2, h2) =
        and_then-eq-ok
          (api (generate_vault_random_seed base64 json arrays readers client rsa engine w1)) _ h1 in
      let (ciphertext, w3, e3, h3) =
        and_then-eq-ok (api (encrypt base64 json arrays readers client rsa engine seed w2)) _ h2 in
      let (wrapped, w4, e4, h4) =
        and_then-eq-ok
          (api (wrap_bytes_for_enclave base64 json arrays readers client rsa seed key w3)) _ h3 in
      let out_eq = ok-injective (ap (λ p. p.0) h4) in
      record {
        engine = engine;
        wallet = wallet;
        seed = seed;
        after_wallet = w1;
        after_seed = w2;
        after_encrypt = w3;
        has_engine = given;
        provisions = map_failure-eq-ok _ _ e1;
        generates = map_failure-eq-ok _ _ e2;
        encrypts = map_failure-eq-ok _ _ e3 ∙ ap (λ o. (ok o.seed_ciphertext, w3)) out_eq;
        wraps =
            map_failure-eq-ok _ _ e4
            ∙ ap (λ o. (ok o.encrypted_master_seed_for_enclave, w4)) out_eq
            ∙ ap (λ w. (ok out.encrypted_master_seed_for_enclave, w)) (ap (λ p. p.1) h4);
        same_ciphertext = ap (λ o. o.wallet_ciphertext) (sym out_eq);
        same_key = ap (λ o. o.encrypted_wallet_key_for_enclave) (sym out_eq);
      }

  -- A provisioning that succeeds returns one seed twice: encrypted by Vault for the disk, and wrapped
  -- for the enclave, a seed that Vault drew after the wallet's data key, whose ciphertext and wrapped
  -- key are the engine's.
  pub provision_datakey-Provisioned :
      (state : AppState World) (key : Text) (world last : World) (out : ProvisioningDataKeyResponse)
      → provision_datakey sha base64 json arrays readers client rsa library display state key world
        ≡ (ok out, last)
      → Provisioned state key world last out
  unfolding provision_datakey
  provision_datakey-Provisioned state key world last out h =
      elim (Bool-cases (is_empty (trim key))) [
        | inl missing ↦ absurd (let e = rw (provision_datakey, missing) at h in cc (e))
        | inr given ↦
            let (engine, w, e, rest) =
              and_then-eq-ok (lift (engine_result state) world) _
                (rw (provision_datakey, given) at h) in
            let (found, same) = lift-eq-ok _ e in
            provision-Provisioned state key engine world last out
              (ok_or-eq-ok state.datakey_engine _ found) (rw (same) rest)
      ]
