-- ===== src/Shared/Witness/Unseal.antt =====
-- Which records are unsealed: sealed ones under their passphrase, and also plain ones.
use dzta.Prelude.{
  >>=-eq-ok, ok-injective, map_err-eq-ok, Result-cases, inl, inr, ◌≡◌, ◌↔◌, ◌∙◌, refl, sym, Text,
  Result, ok, err, Option, length, arith,
}
use dzta.Errors.{WalletError}
use dzta.Interfaces.PrimeField.{PrimeField}
use dzta.Interfaces.Crypto.{Sha256, BigUint, Aes256Gcm, AeadLaws}
use dzta.Interfaces.Json.{Json}
use dzta.Shared.WalletRecord.{encrypt_wallet_record, decrypt_wallet_record}
use dzta.Shared.WalletRecord.RoundTrip.{decrypt-encrypt_wallet_record}
use dzta.Shared.Subject.{DecryptedCredentialSubject, parse_credential_subject, xor_cycle}
use dzta.Shared.Witness.{
  DerivedEnclaveWitness, derive_witness, unseal_and_derive_witness_with_credential_id,
  unsealed_subject, cleartext_bytes,
}

module _ {F Crypter Value : Type 0} (sha : Sha256) (big : BigUint) (field : PrimeField F)
    (aes : Aes256Gcm Crypter) (json : Json Value)
    (subject_from_slice : Text → Result Text DecryptedCredentialSubject) where
  -- A record that was encrypted under the key is unsealed to the witness of the subject that its
  -- plaintext parses to.
  pub unseal-encrypt_wallet_record :
      (laws : AeadLaws aes) (nonce plaintext db_key envelope master_seed : Text)
      (credential_id : Option Text) (subject : DecryptedCredentialSubject)
      → length nonce ≡ 12
      → encrypt_wallet_record sha aes (ok nonce) plaintext db_key ≡ ok envelope
      → parse_credential_subject json subject_from_slice plaintext credential_id ≡ ok subject
      → unseal_and_derive_witness_with_credential_id sha big field aes json subject_from_slice
          envelope db_key master_seed credential_id
        ≡ ok (derive_witness sha big field subject master_seed)
  unfolding unseal_and_derive_witness_with_credential_id
  unseal-encrypt_wallet_record laws nonce plaintext db_key envelope master_seed credential_id
        subject hn sealed parsed =
      let opened =
        decrypt-encrypt_wallet_record sha aes laws nonce plaintext db_key envelope hn sealed in
      ground (arith, opened)

  -- Where the subject of a record comes from: from the decrypted record, from the raw bytes where they do
  -- not decrypt, or from the XOR of the raw bytes with the key where neither parses.
  pub data Source (raw db_key : Text) (credential_id : Option Text)
      (subject : DecryptedCredentialSubject) : Type 0 where
    sealed :
        (plaintext : Text)
        → decrypt_wallet_record sha aes raw db_key ≡ ok plaintext
        → parse_credential_subject json subject_from_slice plaintext credential_id ≡ ok subject
        → Source raw db_key credential_id subject
    plain :
        (e : WalletError)
        → decrypt_wallet_record sha aes raw db_key ≡ err e
        → parse_credential_subject json subject_from_slice raw credential_id ≡ ok subject
        → Source raw db_key credential_id subject
    masked_sealed :
        (plaintext : Text) (e : WalletError)
        → decrypt_wallet_record sha aes raw db_key ≡ ok plaintext
        → parse_credential_subject json subject_from_slice plaintext credential_id ≡ err e
        → subject_from_slice (xor_cycle raw db_key) ≡ ok subject
        → Source raw db_key credential_id subject
    masked_plain :
        (e e' : WalletError)
        → decrypt_wallet_record sha aes raw db_key ≡ err e
        → parse_credential_subject json subject_from_slice raw credential_id ≡ err e'
        → subject_from_slice (xor_cycle raw db_key) ≡ ok subject
        → Source raw db_key credential_id subject

  unsealed_subject-Source :
      (raw db_key : Text) (credential_id : Option Text) (subject : DecryptedCredentialSubject)
      → unsealed_subject sha big field aes json subject_from_slice raw db_key credential_id
        ≡ ok subject
      → Source raw db_key credential_id subject
  unfolding unsealed_subject cleartext_bytes
  unsealed_subject-Source raw db_key credential_id subject h =
      elim (Result-cases (decrypt_wallet_record sha aes raw db_key)) [
        | inl (plaintext, d) ↦
            elim (Result-cases
              (parse_credential_subject json subject_from_slice plaintext credential_id)) [
                | inl (found, p) ↦
                    sealed plaintext d
                      (let f = rw (unsealed_subject, cleartext_bytes, d, p) at h in p ∙ f)
                | inr (e, p) ↦
                    masked_sealed plaintext e d p
                      (map_err-eq-ok _ _ (rw (unsealed_subject, cleartext_bytes, d, p) at h))
              ]
        | inr (e, d) ↦
            elim (Result-cases
              (parse_credential_subject json subject_from_slice raw credential_id)) [
                | inl (found, p) ↦
                    plain e d (let f = rw (unsealed_subject, cleartext_bytes, d, p) at h in p ∙ f)
                | inr (e', p) ↦
                    masked_plain e e' d p
                      (map_err-eq-ok _ _ (rw (unsealed_subject, cleartext_bytes, d, p) at h))
              ]
      ]

  Source-unsealed_subject :
      (raw db_key : Text) (credential_id : Option Text) (subject : DecryptedCredentialSubject)
      → Source raw db_key credential_id subject
      → unsealed_subject sha big field aes json subject_from_slice raw db_key credential_id
        ≡ ok subject
  unfolding unsealed_subject cleartext_bytes
  Source-unsealed_subject raw db_key credential_id subject (sealed plaintext d p) = ground arith
  Source-unsealed_subject raw db_key credential_id subject (plain e d p) = ground arith
  Source-unsealed_subject raw db_key credential_id subject (masked_sealed plaintext e d p x) =
      ground arith
  Source-unsealed_subject raw db_key credential_id subject (masked_plain e e' d p x) = ground arith

  -- A record is unsealed to a witness exactly when that is the witness of a subject that was decrypted,
  -- or read from the raw bytes where they do not decrypt, or read from their XOR with the key where
  -- what was decrypted, or else the raw bytes, do not parse.
  pub unseal_iff :
      (raw db_key master_seed : Text) (credential_id : Option Text) (w : DerivedEnclaveWitness)
      → (unseal_and_derive_witness_with_credential_id sha big field aes json subject_from_slice raw
            db_key master_seed credential_id
          ≡ ok w)
        ↔ ((subject : DecryptedCredentialSubject) × Source raw db_key credential_id subject
            × (w ≡ derive_witness sha big field subject master_seed))
  unfolding unseal_and_derive_witness_with_credential_id
  unseal_iff raw db_key master_seed credential_id w = (
    λ h.
        let (subject, u, e) =
          >>=-eq-ok
            (unsealed_subject sha big field aes json subject_from_slice raw db_key credential_id) _
            h in
        (subject, unsealed_subject-Source raw db_key credential_id subject u, sym (ok-injective e)),
    λ p. rw (Source-unsealed_subject raw db_key credential_id p.0 p.1, p.2) refl,
  )
