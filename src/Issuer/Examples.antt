-- ===== src/Issuer/Examples.antt =====
-- A credential of a signer whose signatures are the payloads.
use dzta.Prelude.{
  ok, err, ◌≡◌, refl, none, some, ℕ, suc, ◌+◌, ◌-◌, arith, ap, false, trim, Text, [], ◌∷◌,
}
use dzta.Prelude.Int.{pos}
use dzta.Interfaces.Askar.{Entries}
use dzta.Interfaces.Signatures.{Ed25519, Ed25519Laws, Multibase, BearerClient}
use dzta.Interfaces.Witnesses.Disk.{noon, empty}
use dzta.Interfaces.Witnesses.Ciphers.{identity_base64}
use dzta.Interfaces.Witnesses.FlatJson.{flat, flat_builders}
use dzta.Errors.{invalid_response}
use dzta.Schema.{validate_fields}
use dzta.Fabric.Models.{IssuedCredential}
use dzta.Fabric.Issue.Sample.{uuids, dates, quiet_ledger, attributes}
use dzta.Fabric.Payload.{subject_payload}
use dzta.Issuer.{
  DidRegistry, sign_and_record, issue_credential, credential_fields, proof_fields, with_proof,
  signing_value,
}
use dzta.Issuer.Signer.{LocalCredentialSigner, local_backend, sign_value}
use dzta.Issuer.Vault.{VaultCredentialSigner, VaultKeyResponse, VaultKeyReaders, vault_sign}
use dzta.Issuer.Agreement.{absent, Served, vault_sign-sign_value}
use dzta.Interfaces.Groth16.{Base64}
use dzta.Issuer.Issued.{Issued, issue_credential-Issued}
use dzta.Issuer.Verified.{Verified, issue_credential-Verified}

-- One key, whose signatures are what it signs.
abbrev plain_ed : Ed25519
plain_ed = record {
  SigningKey = Unit {0};
  VerifyingKey = Unit {0};
  Signature = Text;
  signing_key = λ seed. tt;
  public_bytes = λ key. 9 ∷ [];
  sign = λ key payload. payload;
  signature_bytes = λ s. s;
  verifying_key = λ bytes. ok tt;
  signature_from_slice = λ s. ok s;
  verify = λ key payload s. ok tt;
}

abbrev plain_ed-laws : Ed25519Laws plain_ed
plain_ed-laws = record {
  public = λ key. tt;
  verifying_key-public_bytes = λ key. refl;
  signature_from_slice-signature_bytes = λ s. refl;
  verify-sign = λ key payload. refl;
}

abbrev plain_multibase : Multibase
plain_multibase = record { encode = λ s. s }

abbrev registry : DidRegistry Entries
registry = record {
  register_did = λ did issuer_did key w. (ok [], w);
  resolve_did = λ did w. (err invalid_response, w);
  query_dids_by_issuer = λ issuer_did w. (ok [], w);
}

abbrev signer : LocalCredentialSigner plain_ed identity_base64
signer = record { signing_key = tt }

abbrev credential : IssuedCredential Text
credential =
    let fields =
      credential_fields flat flat_builders (4 ∷ []) (50 ∷ []) (50 ∷ [])
        (subject_payload flat flat_builders (5 ∷ []) attributes) in
    let proof = proof_fields flat flat_builders (4 ∷ []) (50 ∷ []) in
    record {
      credential_id = 8 ∷ [];
      schema_id = 3 ∷ [];
      issuer_did = 4 ∷ [];
      subject_did = 5 ∷ [];
      credential_data = with_proof flat flat_builders fields proof (
          sign_value plain_ed identity_base64 signer
            (signing_value flat flat_builders fields proof));
      issued_at = pos 5;
      expires_at = some (pos 9);
    }

issued :
    issue_credential flat flat_builders ok noon uuids dates quiet_ledger registry
      (local_backend plain_ed identity_base64 plain_multibase signer)
      (3 ∷ [])
      (4 ∷ [])
      (5 ∷ [])
      attributes
      (pos 9)
      empty
    ≡ (ok credential, empty)
unfolding issue_credential sign_and_record validate_fields trim
issued = refl

issue_credential-Issued_example :
    Issued flat flat_builders ok noon uuids dates quiet_ledger registry
      (local_backend plain_ed identity_base64 plain_multibase signer)
      (3 ∷ [])
      (4 ∷ [])
      (5 ∷ [])
      attributes
      (pos 9)
      credential
      empty
      empty
issue_credential-Issued_example =
    issue_credential-Issued flat flat_builders ok noon uuids dates quiet_ledger registry
      (local_backend plain_ed identity_base64 plain_multibase signer) (3 ∷ []) (4 ∷ []) (5 ∷ [])
      attributes (pos 9) credential empty empty issued

issue_credential-Verified_example :
    Verified flat flat_builders ok noon uuids dates quiet_ledger registry plain_ed plain_ed-laws
      identity_base64 plain_multibase signer
      (3 ∷ [])
      (4 ∷ [])
      (5 ∷ [])
      attributes
      (pos 9)
      credential
issue_credential-Verified_example =
    issue_credential-Verified flat flat_builders ok noon uuids dates quiet_ledger registry plain_ed
      plain_ed-laws identity_base64 plain_multibase signer (3 ∷ []) (4 ∷ []) (5 ∷ []) attributes
      (pos 9) credential empty empty issued

-- Base64 texts as the bytes above the colon.
abbrev raised : Text → Text
raised [] = []
raised (c ∷ s) = (59 + c) ∷ raised s

abbrev lowered : Text → Text
lowered [] = []
lowered (c ∷ s) = (c - 59) ∷ lowered s

lowered-raised : (s : Text) → lowered (raised s) ≡ s
lowered-raised [] = refl
lowered-raised (c ∷ s) =
    let byte : 59 + c - 59 ≡ c = omega arith in rw (byte, lowered-raised s) refl

absent-raised : (s : Text) → absent b':' (raised s) ≡ false
absent-raised [] = refl
absent-raised (c ∷ s) = ground (arith, absent-raised s)

abbrev above_colon : Base64
above_colon = record {
  encode = raised;
  decode = λ s. ok (lowered s);
  decode-encode = λ s. ap ok (lowered-raised s);
}

-- A Vault that has an Ed25519 key, whose worlds count the requests.
abbrev signature_text : Text
signature_text = 118 ∷ b':' ∷ raised (7 ∷ [])

abbrev vault_client : BearerClient ℕ
vault_client = record {
  get = λ url token w. (ok (record { status = 200; body = [] }), suc w);
  post = λ url token body w. (ok (record { status = 200; body = signature_text }), suc w);
  text = λ answer w. (ok answer.body, w);
  status_text = λ n. [];
}

abbrev key : VaultKeyResponse Text
key = record { key_type = none; latest_version = []; keys = [] }

abbrev readers : VaultKeyReaders Text
readers = record { key_response = λ s. ok key; sign_response = ok; number_text = λ v. none }

abbrev vault : VaultCredentialSigner
vault = record { address = []; token = []; transit_key = [] }

abbrev clear_signer : LocalCredentialSigner plain_ed above_colon
clear_signer = record { signing_key = tt }

served :
    Served flat readers above_colon above_colon plain_multibase vault_client vault plain_ed
      clear_signer
      (7 ∷ [])
      0
      2
served = record {
  key_answer = record { status = 200; body = [] };
  key_body = [];
  key = key;
  sign_answer = record { status = 200; body = signature_text };
  sign_body = signature_text;
  version = 118 ∷ [];
  asked = 1;
  told = 1;
  posted = 2;
  key_asked = refl;
  key_success = refl;
  key_told = refl;
  key_read = refl;
  sign_asked = refl;
  sign_success = refl;
  sign_told = refl;
  sign_read = refl;
}

vault_sign-sign_value_example :
    vault_sign flat readers above_colon above_colon plain_multibase vault_client vault (7 ∷ []) 0
    ≡ (ok (sign_value plain_ed above_colon clear_signer (7 ∷ [])), 2)
vault_sign-sign_value_example =
    vault_sign-sign_value flat readers above_colon above_colon plain_multibase vault_client vault
      plain_ed clear_signer absent-raised (7 ∷ []) 0 2 served
