-- ===== src/Broker/Routes/Sample.antt =====
-- A broker, its Vault and an enclave whose key is one byte.
use dzta.Prelude.{ℕ, suc, Text, ok, err, some, none, [], ◌∷◌, ◌++◌, utf8}
use dzta.Errors.{BrokerError, configuration}
use dzta.Interfaces.Http.{Client, Rsa, JsonArrays}
use dzta.Interfaces.Witnesses.Hashes.{checksum}
use dzta.Interfaces.Witnesses.Proofs.{Document, reads, string, empty, field}
use dzta.Broker.{AppState, VerifiedEnclave, SecretProvider}
use dzta.Broker.Session.{binding, bind_session}
use dzta.Broker.Quote.{QuoteLibrary, SgxReport}
use dzta.Broker.Vault.{VaultReaders}

abbrev pub enclave_key : Text
enclave_key = 77 ∷ []

abbrev pub report : SgxReport
report = record {
  mr_enclave = 1 ∷ [];
  mr_signer = 2 ∷ [];
  report_data = bind_session checksum (binding enclave_key 3);
}

abbrev pub library : QuoteLibrary (Unit {0})
library = record {
  with_default_http = λ url. ok tt;
  fetch = λ url quote. ok tt;
  now = ok 0;
  verify_with_policy = λ quote collateral time. ok (some report);
  hex = λ s. s;
}

-- The world counts the requests and the encryptions.
abbrev pub client : Client ℕ
client = record {
  send = λ req n. (ok (record { status = 200; body = [] }), suc n);
  status_text = λ status. [];
}

abbrev pub rsa : Rsa Text ℕ
rsa = record { from_public_key_pem = λ pem. ok pem; encrypt = λ key s n. (ok (key ++ s), suc n) }

abbrev pub vault_document : Document
vault_document = field (utf8 "data") (field (utf8 "plaintext") (string (9 ∷ [])) empty) empty

abbrev pub arrays : JsonArrays (reads vault_document)
arrays = record { as_array = λ v. none }

abbrev pub readers : VaultReaders
readers = record {
  decrypt_response = λ s. err [];
  datakey_response = λ s. err [];
  seed_response = λ s. err [];
}

abbrev pub no_provider : SecretProvider ℕ
no_provider enclave id wallet seed world = (err (configuration []), suc world)

abbrev pub state : AppState ℕ
state = record {
  pccs_url = [];
  expected_mrenclave = 1 ∷ [];
  expected_mrsigner = 2 ∷ [];
  kms = no_provider;
  datakey_engine = some (record { vault_addr = []; vault_token = []; secret_key_name = [] });
}

abbrev pub display : BrokerError → Text
display e = []

abbrev pub attested_enclave : VerifiedEnclave
attested_enclave = record {
  quote = 81 ∷ [];
  report_data = bind_session checksum (binding enclave_key 3);
  enclave_public_key = enclave_key;
  mrenclave = 1 ∷ [];
  mrsigner = 2 ∷ [];
}
