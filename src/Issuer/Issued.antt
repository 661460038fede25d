-- ===== src/Issuer/Issued.antt =====
-- What `create_credential` of dzta-issuer/src/lib.rs has done when it returns a credential.
use dzta.Prelude.{
  Text, Result, ok, ok-injective, map_err, map_err-eq-ok, refl, Bool, ok_or, ok_or-eq-ok, arith,
  ◌≡◌, ap, sym, ◌∙◌, some, true, false, trim, is_empty, ◌||◌, HashMap,
}
use dzta.Prelude.Int.{ℤ, leb_ℤ, ◌<ℤ◌}
use dzta.Effects.{and_then-eq-ok, lift_then-eq-ok}
use dzta.Interfaces.Host.{Clock}
use dzta.Interfaces.Json.{Json, JsonBuilders}
use dzta.Schema.{validate_fields}
use dzta.Fabric.Models.{CredentialAttributes, CredentialSchema, IssuedCredential}
use dzta.Fabric.Config.{forbid, forbid-eq-ok}
use dzta.Fabric.Ledger.{Ledger}
use dzta.Fabric.Payload.{subject_payload}
use dzta.Fabric.Issue.{Uuids, Dates}
use dzta.Issuer.{
  CredentialSignerBackend, DidRegistry, credential_fields, proof_fields, signing_value, with_proof,
  sign_and_record, issue_credential,
}

module _ {World Value : Type 0} (json : Json Value) (builders : JsonBuilders Value)
    (jcs : Value → Result Text Text) (clock : Clock World) (uuids : Uuids World) (dates : Dates)
    (ledger : Ledger World) (registry : DidRegistry World) (signer : CredentialSignerBackend World)
    (schema_id issuer_did subject_did : Text) (attributes : CredentialAttributes)
    (expires_at : ℤ) where
  abbrev pub payload_of : Value
  payload_of = subject_payload json builders subject_did attributes

  abbrev pub fields_of : ℤ → ℤ → HashMap Value
  fields_of issued_at expires =
      credential_fields json builders issuer_did (dates.to_rfc3339 issued_at)
        (dates.to_rfc3339 expires) payload_of

  -- A credential whose proof holds what the signer returned for the canonical form of its other fields
  -- and of the proof's other fields, and whose metadata were recorded on the ledger after that.
  pub record Signed (id : Text) (issued_at expires : ℤ) (credential : IssuedCredential Value)
      (world last : World) : Type 0 where
    pub signing_input : Text
    pub proof_value : Text
    pub between : World
    pub receipt : Text
    pub names : credential.credential_id ≡ id
    pub canonical_form :
        jcs (
          signing_value json builders
            (fields_of issued_at expires)
            (proof_fields json builders issuer_did (dates.to_rfc3339 issued_at)))
        ≡ ok signing_input
    pub data_of :
        credential.credential_data
        ≡ with_proof json builders
            (fields_of issued_at expires)
            (proof_fields json builders issuer_did (dates.to_rfc3339 issued_at))
            proof_value
    pub signed : signer.sign signing_input world ≡ (ok proof_value, between)
    pub recorded :
        ledger.record_credential_metadata id schema_id issuer_did subject_did expires_at between
        ≡ (ok receipt, last)

  sign_and_record-Signed :
      (id : Text) (issued_at expires : ℤ) (credential : IssuedCredential Value) (world last : World)
      → sign_and_record json builders jcs clock uuids dates ledger registry signer id schema_id
          issuer_did subject_did expires_at issued_at expires payload_of world
        ≡ (ok credential, last)
      → Signed id issued_at expires credential world last
  unfolding sign_and_record
  sign_and_record-Signed id issued_at expires credential world last h =
      let input = jcs (
        signing_value json builders (fields_of issued_at expires)
          (proof_fields json builders issuer_did (dates.to_rfc3339 issued_at))) in
      let (signing_input, canonical, h₁) = lift_then-eq-ok (map_err _ input) world _ h in
      let (proof_value, w₂, signed, h₂) = and_then-eq-ok (signer.sign signing_input world) _ h₁ in
      let (receipt, w₃, recorded, h₃) =
        and_then-eq-ok
          (ledger.record_credential_metadata id schema_id issuer_did subject_did expires_at w₂) _
          h₂ in
      let made = ok-injective (ap (λ r. r.0) h₃) in
      record {
        signing_input = signing_input;
        proof_value = proof_value;
        between = w₂;
        receipt = receipt;
        names = ap (λ (c : IssuedCredential Value). c.credential_id) (sym made);
        canonical_form = map_err-eq-ok _ input canonical;
        data_of = ap (λ (c : IssuedCredential Value). c.credential_data) (sym made);
        signed = signed;
        recorded = recorded ∙ ap (λ w. (ok receipt, w)) (ap (λ r. r.1) h₃);
      }

  -- What creating a credential has done: it was asked for two DIDs and a time to come, the subject fits
  -- the schema that the ledger gave, and the credential was signed.
  pub record Issued (credential : IssuedCredential Value) (world last : World) : Type 0 where
    pub schema : CredentialSchema
    pub answered : World
    pub expires : ℤ
    pub issuer_named : is_empty (trim issuer_did) ≡ false
    pub subject_named : is_empty (trim subject_did) ≡ false
    pub to_come : clock.now world <ℤ expires_at
    pub schema_found : ledger.get_schema schema_id (uuids.new_v4 world).1 ≡ (ok schema, answered)
    pub valid : validate_fields json dates.is_rfc3339 schema.attributes payload_of ≡ ok tt
    pub dated : dates.from_timestamp expires_at ≡ some expires
    pub signed : Signed (uuids.new_v4 world).0 (clock.now answered) expires credential answered last

  or-eq-false : (a b : Bool) → (a || b) ≡ false → (a ≡ false) × (b ≡ false)
  or-eq-false true b h = absurd (cc (h))
  or-eq-false false b h = (refl, h)

  -- A credential that `create_credential` returns, with whatever signer, fits the schema that the ledger
  -- gave, and its expiry lies ahead; its proof value is what the signer returned for the canonical form
  -- of the credential and of the proof without the value, and after the signing its metadata were
  -- recorded on the ledger under its new id.
  pub issue_credential-Issued :
      (credential : IssuedCredential Value) (world last : World)
      → issue_credential json builders jcs clock uuids dates ledger registry signer schema_id
          issuer_did subject_did attributes expires_at world
        ≡ (ok credential, last)
      → Issued credential world last
  unfolding issue_credential
  issue_credential-Issued credential world last h =
      let unnamed = is_empty (trim issuer_did) || is_empty (trim subject_did) in
      let (_, named, h₁) = lift_then-eq-ok (forbid unnamed _) world _ h in
      let (_, fresh, h₂) =
        lift_then-eq-ok (forbid (leb_ℤ expires_at (clock.now world)) _) world _ h₁ in
      let (schema, answered, found, h₃) =
        and_then-eq-ok (ledger.get_schema schema_id (uuids.new_v4 world).1) _ h₂ in
      let (_, valid, h₄) =
        lift_then-eq-ok (validate_fields json dates.is_rfc3339 schema.attributes payload_of)
          answered _ h₃ in
      let (expires, dated, h₅) =
        lift_then-eq-ok (ok_or (dates.from_timestamp expires_at) _) answered _ h₄ in
      let dids = or-eq-false _ _ (forbid-eq-ok unnamed _ named) in
      let late = forbid-eq-ok (leb_ℤ expires_at (clock.now world)) _ fresh in
      record {
        schema = schema;
        answered = answered;
        expires = expires;
        issuer_named = dids.0;
        subject_named = dids.1;
        to_come = ground (arith, late);
        schema_found = found;
        valid = valid;
        dated = ok_or-eq-ok (dates.from_timestamp expires_at) _ dated;
        signed =
            sign_and_record-Signed (uuids.new_v4 world).0 (clock.now answered) expires credential
              answered last h₅;
      }
