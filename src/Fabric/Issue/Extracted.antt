-- ===== src/Fabric/Issue/Extracted.antt =====
-- What is extracted from a credential that was created is what was issued.

use dzta.Prelude.{Text, ok, ok-injective, ◌≡◌, refl, ap, sym, ◌∙◌, some, text_eq_refl}
use dzta.Prelude.Int.{ℤ}
use dzta.Errors.{WalletError}
use dzta.Effects.{and_then-eq-ok, map_failure-eq-ok, lift, lift-eq-ok}
use dzta.Interfaces.Host.{Clock}
use dzta.Interfaces.Crypto.{Sha256, Aes256Gcm, AeadLaws}
use dzta.Interfaces.Json.{Json, JsonBuilders, JsonLaws}
use dzta.Interfaces.Askar.{Askar, AskarLaws, Random, RandomLaws, Entry}
use dzta.Fabric.Models.{CredentialAttributes, StoredCredential}
use dzta.Fabric.Ledger.{Ledger}
use dzta.Fabric.Payload.{refused, unwrap, attributes_of}
use dzta.Fabric.Payload.RoundTrip.{attributes_of-verifiable_credential}
use dzta.Fabric.Issue.{
  Uuids, Dates, create_credential, get_credential, extract_proofable_fields, returning,
}
use dzta.Fabric.Issue.Issued.{QuietLedger, create_credential-Issued}
use dzta.Fabric.Credentials.{
  CredentialManager, category, open_store, get_askar_passphrase, retrieve_credential,
}
use dzta.Fabric.Credentials.Operations.{Stored, stored_tags}
use dzta.Fabric.Credentials.Sealing.{retrieve_credential-Read}

-- Value's Display is read back.
pub record JsonRoundTrip {Value : Type 0} (json : Json Value) : Type 0 where
  pub from_slice-to_string : (v : Value) → json.from_slice (json.to_string v) ≡ ok v

module _ {World Crypter Value : Type 0} (json : Json Value) (builders : JsonBuilders Value)
    (askar : Askar World) (laws : AskarLaws askar) (clock : Clock World) (random : Random World)
    (randomness : RandomLaws random askar laws) (uuids : Uuids World) (dates : Dates) (sha : Sha256)
    (aes : Aes256Gcm Crypter) (aead : AeadLaws aes) (display : WalletError → Text)
    (ledger : Ledger World) (quiet : QuietLedger askar laws ledger)
    (manager : CredentialManager askar) (store : askar.Store) (passphrase : Text)
    (opened : open_store askar manager ≡ ok store)
    (cached : get_askar_passphrase askar manager ≡ ok passphrase) where
  get_credential-data :
      (id : Text) (credential : StoredCredential Value) (world last : World)
      → get_credential json builders askar clock random uuids dates sha aes display ledger manager
          id world
        ≡ (ok credential, last)
      → (next : World) × (retrieve_credential askar sha aes json display manager id world
          ≡ (ok credential.credential_data, next))
  unfolding get_credential
  get_credential-data id credential world last h =
      let (v, w₁, reads, h₁) =
        and_then-eq-ok (returning (retrieve_credential askar sha aes json display manager id) world)
          _ h in
      let (metadata, w₂, _, h₂) =
        and_then-eq-ok (returning (ledger.get_credential_metadata id) w₁) _ h₁ in
      let (issued_at, w₃, _, h₃) =
        and_then-eq-ok (lift (unwrap (dates.from_timestamp metadata.issued_at)) w₂) _ h₂ in
      let same : v ≡ credential.credential_data =
        ap (λ (c : StoredCredential Value). c.credential_data) (ok-injective (ap (λ r. r.0) h₃)) in
      (
        w₁,
        map_failure-eq-ok refused (retrieve_credential askar sha aes json display manager id world)
              reads
            ∙ ap (λ d. (ok d, w₁)) same,
      )

  -- A document that was stored is retrieved, as long as the entries of the store are the same.
  stored_again :
      (round : JsonRoundTrip json) (id : Text) (vc v : Value) (before between world next : World)
      → Stored askar laws sha aes store passphrase id (json.to_string vc) before between
      → laws.entries store world ≡ laws.entries store between
      → retrieve_credential askar sha aes json display manager id world ≡ (ok v, next)
      → v ≡ vc
  stored_again round id vc v before between world next s same h =
      let (entry, cleartext, decrypts, parses, r) =
        retrieve_credential-Read askar laws sha aes aead json display manager store passphrase
          opened cached id v world next h in
      let kept : Entry = record { value = s.envelope; tags = stored_tags s.at_time } in
      let there : laws.entries store between category id ≡ some kept =
        ap (λ e. e category id) s.added ∙ rw (text_eq_refl category, text_eq_refl id) refl in
      let found = sym r.present ∙ ap (λ e. e category id) same ∙ there in
      let envelope : entry.value ≡ s.envelope = cc (found) in
      let text : cleartext ≡ json.to_string vc =
        ok-injective (sym decrypts ∙ rw envelope s.opens) in
      ok-injective (sym parses ∙ rw text (round.from_slice-to_string vc))

  -- The attributes that are extracted of a credential after it was created are those that it was created
  -- with, while the entries of the store are as creation left them.
  pub extract_proofable_fields-create_credential :
      (objects : JsonLaws json) (round : JsonRoundTrip json)
      (schema_id issuer_did subject_did : Text) (attributes found : CredentialAttributes)
      (expires_at : ℤ) (credential : StoredCredential Value) (world middle later last : World)
      → create_credential json builders askar clock random uuids dates sha aes display ledger
          manager schema_id issuer_did subject_did attributes expires_at world
        ≡ (ok credential, middle)
      → laws.entries store later ≡ laws.entries store middle
      → extract_proofable_fields json builders askar clock random uuids dates sha aes display ledger
          manager credential.credential_id later
        ≡ (ok found, last)
      → found ≡ attributes
  unfolding extract_proofable_fields
  extract_proofable_fields-create_credential objects round schema_id issuer_did subject_did
        attributes found expires_at credential world middle later last made unchanged h =
      let issued =
        create_credential-Issued json builders askar laws clock random randomness uuids dates sha
          aes aead display ledger quiet manager store passphrase opened cached schema_id issuer_did
          subject_did expires_at attributes credential world middle made in
      let s = issued.saved in
      let recorded =
        quiet.entries-record_credential_metadata store issued.id schema_id issuer_did subject_did
          s.receipt expires_at s.between middle s.recorded in
      let (read, w₁, got, h₁) =
        and_then-eq-ok
          (get_credential json builders askar clock random uuids dates sha aes display ledger
            manager credential.credential_id later)
          _ h in
      let (next, retrieved) = get_credential-data credential.credential_id read later w₁ got in
      let same =
        stored_again round issued.id _ read.credential_data issued.before s.between later next
          s.stored (unchanged ∙ recorded) (rw (← s.names) retrieved) in
      let (shown, _) = lift-eq-ok (attributes_of json builders read.credential_data) h₁ in
      ok-injective (
        sym shown
        ∙ ap (attributes_of json builders) same
        ∙ attributes_of-verifiable_credential json objects builders subject_did attributes
            issuer_did issued.issued issued.expires)
