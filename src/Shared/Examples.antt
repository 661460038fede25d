-- ===== src/Shared/Examples.antt =====
-- The theorems on records, scalars and witnesses at concrete inputs.
use dzta.Prelude.Int.{pos}
use dzta.Prelude.{
  ℕ, ◌≡◌, ◌↔◌, refl, Text, Result, ok, err, none, some, [], ◌∷◌, ◌++◌, utf8, arith, starts_with,
  if◌then◌else◌,
}
use dzta.Errors.{WalletResult}
use dzta.Interfaces.Witnesses.Zmod.{fr}
use dzta.Interfaces.Witnesses.Hashes.{checksum, one_character}
use dzta.Interfaces.Witnesses.Ciphers.{plain_aes, plain_aes-laws}
use dzta.Interfaces.Witnesses.Proofs.{Document, reads, string, integer, empty, field}
use dzta.Shared.WalletRecord.{magic, encrypt_wallet_record, decrypt_wallet_record}
use dzta.Shared.WalletRecord.RoundTrip.{decrypt-encrypt_wallet_record}
use dzta.Shared.WalletRecord.Format.{Framed, decrypt_wallet_record_iff}
use dzta.Shared.Scalar.Laws.{from_str_radix-string_to_scalar}
use dzta.Shared.Subject.{
  DecryptedCredentialSubject, EnclaveIngestionPayload, xor_cycle, unseal_credential_subject,
  parse_credential_subject,
}
use dzta.Shared.Subject.Parse.{unseal_credential_subject-xor}
use dzta.Shared.Witness.{
  DerivedEnclaveWitness, derive_witness, unseal_and_derive_witness_with_credential_id, FieldWitness,
}
use dzta.Shared.Witness.Agreement.{process_unsealed_witness-derive_witness, Agrees}
use dzta.Shared.Witness.Unseal.{unseal-encrypt_wallet_record, Source, unseal_iff}

abbrev nonce : Text
nonce = 1 ∷ 2 ∷ 3 ∷ 4 ∷ 5 ∷ 6 ∷ 7 ∷ 8 ∷ 9 ∷ 10 ∷ 11 ∷ 12 ∷ []

abbrev tag : Text
tag = 0 ∷ 0 ∷ 0 ∷ 0 ∷ 0 ∷ 0 ∷ 0 ∷ 0 ∷ 0 ∷ 0 ∷ 0 ∷ 0 ∷ 0 ∷ 0 ∷ 0 ∷ 0 ∷ []

abbrev sealed : Text
sealed = magic ++ (nonce ++ (((65 ∷ 66 ∷ []) ++ []) ++ tag))

seals : encrypt_wallet_record checksum plain_aes (ok nonce) (65 ∷ 66 ∷ []) (7 ∷ []) ≡ ok sealed
unfolding encrypt_wallet_record
seals = refl

decrypt-encrypt_wallet_record_example :
    decrypt_wallet_record checksum plain_aes sealed (7 ∷ []) ≡ ok (65 ∷ 66 ∷ [])
decrypt-encrypt_wallet_record_example =
    decrypt-encrypt_wallet_record checksum plain_aes plain_aes-laws nonce (65 ∷ 66 ∷ []) (7 ∷ [])
      sealed refl seals

decrypt_wallet_record_iff_example :
    (decrypt_wallet_record checksum plain_aes sealed (7 ∷ []) ≡ ok (65 ∷ 66 ∷ []))
    ↔ Framed checksum plain_aes sealed (7 ∷ []) (65 ∷ 66 ∷ [])
decrypt_wallet_record_iff_example =
    decrypt_wallet_record_iff checksum plain_aes sealed (7 ∷ []) (65 ∷ 66 ∷ [])

abbrev role_number : ℕ
role_number = (from_str_radix-string_to_scalar checksum one_character (65 ∷ 66 ∷ [])).0

abbrev alice : DecryptedCredentialSubject
alice = record {
  user_clearance_level = 5;
  user_role_scalar = 65 ∷ 66 ∷ [];
  subject_did = 100 ∷ [];
  credential_id = 49 ∷ [];
}

-- The reader that takes a text which starts with '{' for Alice's subject.
abbrev reader : Text → Result Text DecryptedCredentialSubject
reader s = if starts_with s (123 ∷ []) then ok alice else err (utf8 "expected value")

abbrev payload : EnclaveIngestionPayload
payload = record {
  raw_wallet_ciphertext = xor_cycle (123 ∷ 125 ∷ []) (1 ∷ []);
  wallet_db_key = some (1 ∷ []);
  credential_id = none;
  required_clearance_level = 3;
  master_seed = none;
}

unseal_credential_subject-xor_example : unseal_credential_subject reader payload ≡ ok alice
unseal_credential_subject-xor_example =
    unseal_credential_subject-xor reader payload 1 [] (123 ∷ 125 ∷ []) (utf8 "expected value") alice
      refl refl (omega arith) tt (omega arith, (omega arith, tt)) refl (unfold xor_cycle in refl)

abbrev w3c : Document
w3c =
    field (utf8 "credentialSubject")
      (field (utf8 "id") (string (100 ∷ [])) (
        field (utf8 "userRoleId") (string (65 ∷ 66 ∷ []))
          (field (utf8 "clearanceLevel") (integer (pos 5)) empty)))
      empty

process_unsealed_witness-derive_witness_example :
    (w : FieldWitness _) × Agrees checksum one_character fr alice (1 ∷ []) 3 w
process_unsealed_witness-derive_witness_example =
    process_unsealed_witness-derive_witness checksum one_character fr alice (1 ∷ []) 3

abbrev unseal : Text → Text → WalletResult DerivedEnclaveWitness
unseal raw key =
    unseal_and_derive_witness_with_credential_id checksum one_character fr plain_aes (reads w3c)
      reader raw key (1 ∷ []) none

abbrev alices_witness : DerivedEnclaveWitness
alices_witness = derive_witness checksum one_character fr alice (1 ∷ [])

abbrev sealed_alice : Text
sealed_alice = magic ++ (nonce ++ (((123 ∷ 125 ∷ []) ++ []) ++ tag))

encrypt_wallet_record-alice :
    encrypt_wallet_record checksum plain_aes (ok nonce) (123 ∷ 125 ∷ []) (7 ∷ []) ≡ ok sealed_alice
unfolding encrypt_wallet_record
encrypt_wallet_record-alice = refl

parse_credential_subject-alice :
    parse_credential_subject (reads w3c) reader (123 ∷ 125 ∷ []) none ≡ ok alice
unfolding parse_credential_subject
parse_credential_subject-alice = refl

unseal-encrypt_wallet_record_example : unseal sealed_alice (7 ∷ []) ≡ ok alices_witness
unseal-encrypt_wallet_record_example =
    unseal-encrypt_wallet_record checksum one_character fr plain_aes (reads w3c) reader
      plain_aes-laws nonce (123 ∷ 125 ∷ []) (7 ∷ []) sealed_alice (1 ∷ []) none alice refl
      encrypt_wallet_record-alice parse_credential_subject-alice

unseal_iff_example : (unseal sealed_alice (7 ∷ []) ≡ ok alices_witness) ↔ (
    (subject : DecryptedCredentialSubject) × Source checksum one_character fr plain_aes
      (reads w3c)
      reader
      sealed_alice
      (7 ∷ [])
      none
      subject
    × (alices_witness ≡ derive_witness checksum one_character fr subject (1 ∷ [])))
unseal_iff_example =
    unseal_iff checksum one_character fr plain_aes (reads w3c) reader sealed_alice (7 ∷ []) (1 ∷ [])
      none alices_witness
