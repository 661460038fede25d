-- ===== src/Fabric/Issue/Examples.antt =====
-- A credential that is created in a store in memory, and read again.
use dzta.Prelude.{Text, ok, ◌≡◌, refl, ap, sym, some, true, [], ◌∷◌, utf8}
use dzta.Prelude.Int.{pos}
use dzta.Errors.{WalletError}
use dzta.Interfaces.Askar.{Entries}
use dzta.Interfaces.Witnesses.Disk.{disk, disk-laws, zero_bytes, zero_bytes-laws, noon, empty}
use dzta.Interfaces.Witnesses.FlatJson.{flat, flat-laws, flat_builders, scan}
use dzta.Interfaces.Witnesses.Hashes.{checksum}
use dzta.Interfaces.Witnesses.Ciphers.{plain_aes, plain_aes-laws}
use dzta.Shared.WalletRecord.{encrypt_wallet_record, decrypt_wallet_record, open_envelope, magic}
use dzta.Schema.{validate_fields}
use dzta.Fabric.Models.{StoredCredential}
use dzta.Fabric.Payload.{subject_payload, verifiable_credential, attributes_of}
use dzta.Fabric.Credentials.{
  CredentialManager, open_store, get_askar_passphrase, store_credential, retrieve_credential,
}
use dzta.Fabric.Issue.{
  get_schema, save_credential, create_credential, get_credential, extract_proofable_fields,
}
use dzta.Fabric.Issue.Sample.{uuids, dates, quiet_ledger, attributes}
use dzta.Fabric.Issue.Issued.{QuietLedger, Issued, create_credential-Issued}
use dzta.Fabric.Issue.Extracted.{JsonRoundTrip, extract_proofable_fields-create_credential}

abbrev manager : CredentialManager disk
manager = record { askar_store_path = []; askar_store = some tt; askar_passphrase = some (9 ∷ []) }

opened : open_store disk manager ≡ ok tt
unfolding open_store
opened = refl

cached : get_askar_passphrase disk manager ≡ ok (9 ∷ [])
unfolding get_askar_passphrase
cached = refl

abbrev display : WalletError → Text
display e = []

abbrev quiet : QuietLedger disk disk-laws quiet_ledger
quiet = record {
  entries-record_credential_metadata =
      λ store id schema_id issuer_did subject_did receipt expires_at w w' h. sym (ap (λ p. p.1) h);
}

abbrev round : JsonRoundTrip flat
round = record { from_slice-to_string = λ v. refl }

abbrev credential : StoredCredential Text
credential = record {
  credential_id = 8 ∷ [];
  schema_id = 3 ∷ [];
  issuer_did = 4 ∷ [];
  subject_did = 5 ∷ [];
  credential_data =
      verifiable_credential flat flat_builders (4 ∷ []) (49 ∷ []) (50 ∷ [])
        (subject_payload flat flat_builders (5 ∷ []) attributes);
  issued_at = pos 5;
  expires_at = some (pos 9);
  stored_in_askar = true;
}

-- The store afterwards.
abbrev after : Entries
after =
    (create_credential flat flat_builders disk noon zero_bytes uuids dates checksum plain_aes
      display quiet_ledger manager (3 ∷ []) (4 ∷ []) (5 ∷ []) attributes (pos 9) empty).1

created :
    create_credential flat flat_builders disk noon zero_bytes uuids dates checksum plain_aes display
      quiet_ledger manager
      (3 ∷ [])
      (4 ∷ [])
      (5 ∷ [])
      attributes
      (pos 9)
      empty
    ≡ (ok credential, after)
unfolding create_credential save_credential get_schema validate_fields store_credential open_store
    get_askar_passphrase encrypt_wallet_record
created = refl

create_credential-Issued_example :
    Issued flat flat_builders disk disk-laws noon zero_bytes zero_bytes-laws uuids dates checksum
      plain_aes plain_aes-laws display quiet_ledger quiet manager tt
      (9 ∷ [])
      opened
      cached
      (3 ∷ [])
      (4 ∷ [])
      (5 ∷ [])
      (pos 9)
      attributes
      credential
      after
create_credential-Issued_example =
    create_credential-Issued flat flat_builders disk disk-laws noon zero_bytes zero_bytes-laws uuids
      dates checksum plain_aes plain_aes-laws display quiet_ledger quiet manager tt (9 ∷ []) opened
      cached (3 ∷ []) (4 ∷ []) (5 ∷ []) (pos 9) attributes credential empty after created

extracted :
    extract_proofable_fields flat flat_builders disk noon zero_bytes uuids dates checksum plain_aes
      display quiet_ledger manager
      (8 ∷ [])
      after
    ≡ (ok attributes, after)
unfolding create_credential save_credential get_schema validate_fields store_credential open_store
    get_askar_passphrase encrypt_wallet_record extract_proofable_fields get_credential
    retrieve_credential decrypt_wallet_record open_envelope magic attributes_of
    verifiable_credential subject_payload scan utf8
extracted = refl

extract_proofable_fields-create_credential_example : attributes ≡ attributes
extract_proofable_fields-create_credential_example =
    extract_proofable_fields-create_credential flat flat_builders disk disk-laws noon zero_bytes
      zero_bytes-laws uuids dates checksum plain_aes plain_aes-laws display quiet_ledger quiet
      manager tt (9 ∷ []) opened cached flat-laws round (3 ∷ []) (4 ∷ []) (5 ∷ []) attributes
      attributes (pos 9) credential empty after after after created refl extracted
