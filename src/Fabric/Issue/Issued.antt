-- ===== src/Fabric/Issue/Issued.antt =====
-- What `create_credential` has done when it returns a credential.

use dzta.Prelude.{Text, ok, ok-injective, ◌≡◌, ap, sym, ◌∙◌}
use dzta.Prelude.Int.{ℤ}
use dzta.Errors.{WalletError}
use dzta.Effects.{and_then-eq-ok, map_failure-eq-ok, lift, lift-eq-ok}
use dzta.Interfaces.Host.{Clock}
use dzta.Interfaces.Crypto.{Sha256, Aes256Gcm, AeadLaws}
use dzta.Interfaces.Json.{Json, JsonBuilders}
use dzta.Interfaces.Askar.{Askar, AskarLaws, Random, RandomLaws}
use dzta.Schema.{validate_fields}
use dzta.Fabric.Models.{CredentialAttributes, StoredCredential, CredentialSchema}
use dzta.Fabric.Ledger.{Ledger}
use dzta.Fabric.Payload.{refused, unwrap, subject_payload, verifiable_credential}
use dzta.Fabric.Issue.{Uuids, Dates, save_credential, create_credential, get_schema, returning}
use dzta.Fabric.Credentials.{CredentialManager, open_store, get_askar_passphrase, store_credential}
use dzta.Fabric.Credentials.Operations.{Stored}
use dzta.Fabric.Credentials.Sealing.{store_credential-Stored}

-- Recording metadata on the ledger leaves a store of the holder alone.
pub record QuietLedger {World : Type 0} (askar : Askar World) (laws : AskarLaws askar)
    (ledger : Ledger World) : Type 0 where
  pub entries-record_credential_metadata :
      (store : askar.Store) (credential_id schema_id issuer_did subject_did id : Text)
      (expires_at : ℤ) (w w' : World)
      → ledger.record_credential_metadata credential_id schema_id issuer_did subject_did expires_at
          w
        ≡ (ok id, w')
      → laws.entries store w' ≡ laws.entries store w

module _ {World Crypter Value : Type 0} (json : Json Value) (builders : JsonBuilders Value)
    (askar : Askar World) (laws : AskarLaws askar) (clock : Clock World) (random : Random World)
    (randomness : RandomLaws random askar laws) (uuids : Uuids World) (dates : Dates) (sha : Sha256)
    (aes : Aes256Gcm Crypter) (aead : AeadLaws aes) (display : WalletError → Text)
    (ledger : Ledger World) (quiet : QuietLedger askar laws ledger)
    (manager : CredentialManager askar) (store : askar.Store) (passphrase : Text)
    (opened : open_store askar manager ≡ ok store)
    (cached : get_askar_passphrase askar manager ≡ ok passphrase) where
  module _ (schema_id issuer_did subject_did : Text) (expires_at : ℤ) where
    -- A credential that was saved under an id: it was added to the store, and its metadata were recorded
    -- on the ledger after that.
    pub record Saved (id : Text) (vc : Value) (credential : StoredCredential Value)
        (world last : World) : Type 0 where
      pub between : World
      pub receipt : Text
      pub names : credential.credential_id ≡ id
      pub holds : credential.credential_data ≡ vc
      pub stored : Stored askar laws sha aes store passphrase id (json.to_string vc) world between
      pub recorded :
          ledger.record_credential_metadata id schema_id issuer_did subject_did expires_at between
          ≡ (ok receipt, last)

    save_credential-Saved :
        (id : Text) (vc : Value) (credential : StoredCredential Value) (world last : World)
        → save_credential json builders askar clock random uuids dates sha aes display ledger
            manager id schema_id issuer_did subject_did expires_at vc world
          ≡ (ok credential, last)
        → Saved id vc credential world last
    unfolding save_credential
    save_credential-Saved id vc credential world last h =
        let (_, w₁, saves, h₁) =
          and_then-eq-ok
            (returning (store_credential askar sha aes json display clock random manager id vc)
              world)
            _ h in
        let (receipt, w₂, records, h₂) =
          and_then-eq-ok
            (returning
              (ledger.record_credential_metadata id schema_id issuer_did subject_did expires_at) w₁)
            _ h₁ in
        let made = ok-injective (ap (λ r. r.0) h₂) in
        record {
          between = w₁;
          receipt = receipt;
          names = ap (λ (c : StoredCredential Value). c.credential_id) (sym made);
          holds = ap (λ (c : StoredCredential Value). c.credential_data) (sym made);
          stored =
              store_credential-Stored askar laws sha aes aead json display manager store passphrase
                opened cached clock random randomness id vc world w₁
                (map_failure-eq-ok refused
                  (store_credential askar sha aes json display clock random manager id vc world)
                  saves);
          recorded =
              map_failure-eq-ok refused
                (ledger.record_credential_metadata id schema_id issuer_did subject_did expires_at
                  w₁)
                records
              ∙ ap (λ w. (ok receipt, w)) (ap (λ r. r.1) h₂);
        }

    module _ (attributes : CredentialAttributes) where
      abbrev pub payload_of : Value
      payload_of = subject_payload json builders subject_did attributes

      -- What creating a credential has done: the subject fits the schema that the ledger gave, and the
      -- credential with the subject was saved.
      pub record Issued (credential : StoredCredential Value) (last : World) : Type 0 where
        pub id : Text
        pub issued : Text
        pub expires : Text
        pub schema : CredentialSchema
        pub asked : World
        pub answered : World
        pub before : World
        pub schema_found : ledger.get_schema schema_id asked ≡ (ok schema, answered)
        pub valid : validate_fields json dates.is_rfc3339 schema.attributes payload_of ≡ ok tt
        pub saved :
            Saved id
              (verifiable_credential json builders issuer_did issued expires payload_of)
              credential
              before
              last

      -- A credential that `create_credential` returns fits the schema that the ledger gave, was new in
      -- the store and is sealed there under the passphrase, and its metadata are recorded on the ledger
      -- after that.
      pub create_credential-Issued :
          (credential : StoredCredential Value) (world last : World)
          → create_credential json builders askar clock random uuids dates sha aes display ledger
              manager schema_id issuer_did subject_did attributes expires_at world
            ≡ (ok credential, last)
          → Issued credential last
      unfolding create_credential get_schema
      create_credential-Issued credential world last h =
          let (schema, w₂, asks, h₂) =
            and_then-eq-ok (returning (ledger.get_schema schema_id) (uuids.new_v4 world).1) _ h in
          let (_, w₃, checks, h₃) =
            and_then-eq-ok
              (returning (lift (validate_fields json dates.is_rfc3339 schema.attributes payload_of))
                w₂)
              _ h₂ in
          let (expires, w₄, dated, h₄) =
            and_then-eq-ok (lift (unwrap (dates.from_timestamp expires_at)) w₃) _ h₃ in
          let saved = save_credential-Saved _ _ credential w₄ last h₄ in
          record {
            id = (uuids.new_v4 world).0;
            issued = clock.now_rfc3339 w₄;
            expires = dates.to_rfc3339 expires;
            schema = schema;
            asked = (uuids.new_v4 world).1;
            answered = w₂;
            before = w₄;
            schema_found =
                map_failure-eq-ok refused (ledger.get_schema schema_id (uuids.new_v4 world).1) asks;
            valid =
                (lift-eq-ok (validate_fields json dates.is_rfc3339 schema.attributes payload_of) (
                  map_failure-eq-ok refused
                    (lift (validate_fields json dates.is_rfc3339 schema.attributes payload_of) w₂)
                    checks)).0;
            saved = saved;
          }
