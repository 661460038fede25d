-- ===== src/Wallet/Examples.antt =====
-- A wallet over a store in memory.
use dzta.Prelude.{Text, ok, ◌≡◌, refl, sym, some, none, false, [], ◌∷◌, utf8}
use dzta.Interfaces.Host.{FileSystem}
use dzta.Interfaces.Askar.{Entries}
use dzta.Interfaces.Witnesses.Disk.{disk, disk-laws, noon, empty}
use dzta.Interfaces.Witnesses.FlatJson.{flat, flat-laws, flat_builders, scan}
use dzta.Wallet.{Wallet, initialize, acquire, store_of}
use dzta.Wallet.Enclave.{
  record_payload, ciphertexts_of, store_enclave_vault_ciphertexts, fetch_enclave_vault_ciphertexts,
  provision_and_bind_vault,
}
use dzta.Wallet.Bound.{WrittenJson, fetch_enclave_vault_ciphertexts-provision_and_bind_vault}

abbrev files : FileSystem Entries
files = record {
  exists = λ path w. false;
  read = λ path w. (ok [], w);
  read_to_string = λ path w. (ok [], w);
  create_dir_all = λ path w. (ok tt, w);
  parent = λ path. some [];
}

abbrev written : WrittenJson flat flat_builders
written = record { from_slice-to_vec = λ v bytes h. sym h }

abbrev closed : Wallet disk
closed = record { askar_store_path = 1 ∷ []; askar_store = none; askar_passphrase = none }

abbrev open_wallet : Wallet disk
open_wallet = record {
  askar_store_path = 1 ∷ [];
  askar_store = some tt;
  askar_passphrase = some (5 ∷ []);
}

abbrev after : Entries
after =
    (provision_and_bind_vault flat flat_builders disk files noon (3 ∷ []) (7 ∷ []) (8 ∷ []) (5 ∷ [])
      (closed, empty)).1.1

provisioned :
    provision_and_bind_vault flat flat_builders disk files noon
      (3 ∷ [])
      (7 ∷ [])
      (8 ∷ [])
      (5 ∷ [])
      (closed, empty)
    ≡ (ok tt, (open_wallet, after))
unfolding provision_and_bind_vault initialize acquire store_of store_enclave_vault_ciphertexts
provisioned = refl

fetched :
    fetch_enclave_vault_ciphertexts flat flat_builders disk (3 ∷ []) open_wallet after
    ≡ (ok (7 ∷ [], 8 ∷ []), after)
unfolding provision_and_bind_vault initialize acquire store_of store_enclave_vault_ciphertexts
    fetch_enclave_vault_ciphertexts ciphertexts_of record_payload scan utf8
fetched = refl

fetch_enclave_vault_ciphertexts-provision_and_bind_vault_example :
    ◌≡◌ {A = Text × Text} (7 ∷ [], 8 ∷ []) (7 ∷ [], 8 ∷ [])
fetch_enclave_vault_ciphertexts-provision_and_bind_vault_example =
    fetch_enclave_vault_ciphertexts-provision_and_bind_vault flat flat-laws flat_builders disk
      disk-laws written files noon (3 ∷ []) (7 ∷ []) (8 ∷ []) (5 ∷ []) closed open_wallet empty
      after after after (7 ∷ [], 8 ∷ []) provisioned (λ store. refl) fetched
