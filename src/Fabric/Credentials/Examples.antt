-- ===== src/Fabric/Credentials/Examples.antt =====
-- The credential manager over a store in memory.
use dzta.Prelude.{Text, Result, ok, ◌≡◌, refl, some, none, true, [], ◌∷◌, List, map, utf8}
use dzta.Errors.{WalletError}
use dzta.Interfaces.Askar.{Entries, update}
use dzta.Interfaces.Witnesses.Disk.{
  disk, disk-laws, zero_bytes, zero_bytes-laws, noon, empty, zeros,
}
use dzta.Interfaces.Witnesses.FlatJson.{flat, flat_builders}
use dzta.Interfaces.Witnesses.Hashes.{checksum}
use dzta.Interfaces.Witnesses.Ciphers.{plain_aes, plain_aes-laws}
use dzta.Shared.WalletRecord.{encrypt_wallet_record, decrypt_wallet_record, magic}
use dzta.Fabric.Credentials.{
  CredentialManager, category, open_store, get_askar_passphrase, store_credential,
  mark_credential_revoked, is_revoked, get_credential_metadata_from_askar, seed_category, seed_name,
  seed_of, get_or_create_zkp_secret_seed,
}
use dzta.Fabric.Credentials.Operations.{revoked_tags}
use dzta.Fabric.Credentials.Specification.{Held, Holdings, Steps}
use dzta.Fabric.Credentials.Refines.{
  Call, store_document, mark_revoked, command_of, run, credentials, run-Steps, run-revoked,
}
use dzta.Fabric.Credentials.Seed.{HasSeed, get_or_create_zkp_secret_seed_idem}

abbrev manager : CredentialManager disk
manager = record { askar_store_path = []; askar_store = some tt; askar_passphrase = some (9 ∷ []) }

opened : open_store disk manager ≡ ok tt
unfolding open_store
opened = refl

cached : get_askar_passphrase disk manager ≡ ok (9 ∷ [])
unfolding get_askar_passphrase
cached = refl

abbrev display : WalletError → Text
display e = []

abbrev carry_out : List (Call Text) → Entries → Result WalletError (Unit {0}) × Entries
carry_out calls world =
    run disk disk-laws noon zero_bytes zero_bytes-laws checksum plain_aes plain_aes-laws flat
      display manager calls world

abbrev two_calls : List (Call Text)
two_calls = store_document (1 ∷ []) (7 ∷ []) ∷ mark_revoked (1 ∷ []) ∷ []

carried_out : carry_out two_calls empty ≡ (ok tt, (carry_out two_calls empty).1)
unfolding run store_credential mark_credential_revoked open_store get_askar_passphrase
    encrypt_wallet_record utf8
carried_out = refl

run-Steps_example :
    Steps
      (credentials disk disk-laws noon zero_bytes zero_bytes-laws checksum plain_aes plain_aes-laws
        flat display manager tt
        (9 ∷ [])
        opened
        cached
        empty)
      (credentials disk disk-laws noon zero_bytes zero_bytes-laws checksum plain_aes plain_aes-laws
        flat display manager tt
        (9 ∷ [])
        opened
        cached
        (carry_out two_calls empty).1)
      (map (command_of flat) two_calls)
run-Steps_example =
    run-Steps disk disk-laws noon zero_bytes zero_bytes-laws checksum plain_aes plain_aes-laws flat
      display manager tt (9 ∷ []) opened cached two_calls empty (carry_out two_calls empty).1
      carried_out

-- A store with one entry, which is revoked and does not open.
abbrev one_revoked : Entries
one_revoked = update category (1 ∷ []) (record { value = []; tags = revoked_tags [] }) empty

abbrev held_revoked : Held
held_revoked = record { document = none; revoked = true }

abbrev seen : Entries → Holdings
seen world =
    credentials disk disk-laws noon zero_bytes zero_bytes-laws checksum plain_aes plain_aes-laws
      flat display manager tt (9 ∷ []) opened cached world

is_held : seen one_revoked (1 ∷ []) ≡ some held_revoked
unfolding decrypt_wallet_record is_revoked utf8 magic
is_held = refl

abbrev one_call : List (Call Text)
one_call = store_document (2 ∷ []) (7 ∷ []) ∷ []

abbrev after : Entries
after = (carry_out one_call one_revoked).1

one_carried_out : carry_out one_call one_revoked ≡ (ok tt, after)
unfolding run store_credential open_store get_askar_passphrase encrypt_wallet_record utf8
one_carried_out = refl

abbrev shown : Text
shown = flat.object ((utf8 "revoked", flat_builders.bool true) ∷ [])

metadata_read :
    get_credential_metadata_from_askar disk flat flat_builders manager (1 ∷ []) after
    ≡ (ok shown, after)
unfolding get_credential_metadata_from_askar run store_credential open_store get_askar_passphrase
    encrypt_wallet_record is_revoked utf8
metadata_read = refl

run-revoked_example :
    (seen after (1 ∷ []) ≡ some held_revoked)
    × (shown ≡ flat.object ((utf8 "revoked", flat_builders.bool true) ∷ []))
run-revoked_example =
    run-revoked disk disk-laws noon zero_bytes zero_bytes-laws checksum plain_aes plain_aes-laws
      flat display manager tt (9 ∷ []) opened cached flat_builders one_call one_revoked after after
      (1 ∷ []) none shown one_carried_out is_held metadata_read

abbrev seed : Text
seed = zeros 32

abbrev seeded : Entries
seeded = update seed_category seed_name (record { value = seed; tags = [] }) empty

drawn : get_or_create_zkp_secret_seed disk zero_bytes manager empty ≡ (ok seed, seeded)
unfolding get_or_create_zkp_secret_seed seed_of open_store
drawn = refl

found : get_or_create_zkp_secret_seed disk zero_bytes manager seeded ≡ (ok seed, seeded)
unfolding get_or_create_zkp_secret_seed seed_of open_store utf8
found = refl

get_or_create_zkp_secret_seed_idem_example :
    (seed ≡ seed) × HasSeed disk disk-laws zero_bytes zero_bytes-laws tt seed seeded
get_or_create_zkp_secret_seed_idem_example =
    get_or_create_zkp_secret_seed_idem disk disk-laws zero_bytes zero_bytes-laws tt manager opened
      seed seed empty seeded seeded seeded drawn refl found
