-- ===== src/Issuer/Verified.antt =====
-- The proofs of the credentials that are issued with a local signer.
use dzta.Prelude.{Text, Result, ok, ok-injective, ◌≡◌, ap}
use mathlib.Core.Path.{subst}
use dzta.Prelude.Int.{ℤ}
use dzta.Interfaces.Host.{Clock}
use dzta.Interfaces.Json.{Json, JsonBuilders}
use dzta.Interfaces.Groth16.{Base64}
use dzta.Interfaces.Signatures.{Ed25519, Ed25519Laws, Multibase}
use dzta.Fabric.Models.{CredentialAttributes, IssuedCredential}
use dzta.Fabric.Ledger.{Ledger}
use dzta.Fabric.Payload.{subject_payload}
use dzta.Fabric.Issue.{Uuids, Dates}
use dzta.Issuer.{
  DidRegistry, credential_fields, proof_fields, signing_value, with_proof, issue_credential,
}
use dzta.Issuer.Signer.{
  LocalCredentialSigner, public_key_bytes, verify, verify-sign_value, local_backend, sign_value,
}
use dzta.Issuer.Issued.{issue_credential-Issued}

module _ {World Value : Type 0} (json : Json Value) (builders : JsonBuilders Value)
    (jcs : Value → Result Text Text) (clock : Clock World) (uuids : Uuids World) (dates : Dates)
    (ledger : Ledger World) (registry : DidRegistry World) (ed : Ed25519) (laws : Ed25519Laws ed)
    (url_safe : Base64) (multibase : Multibase) (signer : LocalCredentialSigner ed url_safe)
    (schema_id issuer_did subject_did : Text) (attributes : CredentialAttributes)
    (expires_at : ℤ) where
  -- A credential of the issuer and the subject whose proof value verifies under the signer's key, over
  -- the canonical form of its other fields and of the proof's other fields.
  pub record Verified (credential : IssuedCredential Value) : Type 0 where
    pub issued : Text
    pub expires : Text
    pub signing_input : Text
    pub proof_value : Text
    pub canonical_form :
        jcs (
          signing_value json builders
            (credential_fields json builders issuer_did issued expires
              (subject_payload json builders subject_did attributes))
            (proof_fields json builders issuer_did issued))
        ≡ ok signing_input
    pub data_of :
        credential.credential_data
        ≡ with_proof json builders
            (credential_fields json builders issuer_did issued expires
              (subject_payload json builders subject_did attributes))
            (proof_fields json builders issuer_did issued)
            proof_value
    pub verified :
        verify ed url_safe (public_key_bytes ed url_safe signer) signing_input proof_value ≡ ok tt

  -- A credential that `create_credential` returns with a local signer carries a proof value that
  -- verifies under the signer's public key, over the canonical form of the credential's other fields
  -- and of the proof's other fields.
  pub issue_credential-Verified :
      (credential : IssuedCredential Value) (world last : World)
      → issue_credential json builders jcs clock uuids dates ledger registry
          (local_backend ed url_safe multibase signer)
          schema_id
          issuer_did
          subject_did
          attributes
          expires_at
          world
        ≡ (ok credential, last)
      → Verified credential
  issue_credential-Verified credential world last h =
      let done =
        issue_credential-Issued json builders jcs clock uuids dates ledger registry
          (local_backend ed url_safe multibase signer) schema_id issuer_did subject_did attributes
          expires_at credential world last h in
      let s = done.signed in
      let made : sign_value ed url_safe signer s.signing_input ≡ s.proof_value =
        ok-injective (ap (λ r. r.0) s.signed) in
      record {
        issued = dates.to_rfc3339 (clock.now done.answered);
        expires = dates.to_rfc3339 done.expires;
        signing_input = s.signing_input;
        proof_value = s.proof_value;
        canonical_form = s.canonical_form;
        data_of = s.data_of;
        verified =
            subst
              (λ p.
                verify ed url_safe (public_key_bytes ed url_safe signer) s.signing_input p ≡ ok tt)
              made (verify-sign_value ed url_safe laws signer s.signing_input);
      }
