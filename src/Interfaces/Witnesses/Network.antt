-- ===== src/Interfaces/Witnesses/Network.antt =====
-- An SDK that accepts everything, files with one byte, and a clock that only sleeps move. The world is
-- the clock's time.
use native.Mathlib.Nat.{le_refl}
use dzta.Prelude.{ℕ, ◌+◌, ◌*◌, Text, ok, some, none, true, [], ◌∷◌}
use dzta.Prelude.Int.{pos}
use dzta.Interfaces.Host.{FileSystem, Environment, Clock, ClockLaws}
use dzta.Interfaces.FabricSdk.{FabricSdk}

abbrev pub sdk : FabricSdk ℕ
sdk = record {
  IdentityBuilder = Unit {0};
  Identity = Unit {0};
  ClientBuilder = Unit {0};
  Client = Unit {0};
  CallBuilder = Unit {0};
  Prepared = Unit {0};
  Envelope = Text;
  Endpoint = Unit {0};
  Gateway = Unit {0};
  EndorseRequest = Unit {0};
  EndorseResponse = Unit {0};
  identity_from_pem = λ pem. ok tt;
  with_msp = λ b s. ok tt;
  with_private_key = λ b s. ok tt;
  build_identity = λ b. ok tt;
  sign_message = λ i s. 7 ∷ s;
  new_client = tt;
  with_identity = λ b i. ok tt;
  with_tls = λ b s. ok tt;
  with_scheme = λ b s. ok tt;
  with_authority = λ b s. ok tt;
  build_client = λ b. ok tt;
  connect = λ c w. (ok tt, w);
  get_chaincode_call_builder = λ c. tt;
  with_channel_name = λ b s. ok tt;
  with_chaincode_id = λ b s. ok tt;
  with_function_name = λ b s. ok tt;
  with_system_chaincode = λ b. tt;
  with_function_args = λ b args. ok tt;
  build_prepared = λ b w. (ok tt, w);
  tx_id_of = λ p. some (116 ∷ []);
  endorse = λ p c w. (ok (101 ∷ []), w);
  evaluate = λ p c w. (ok [], w);
  payload = λ e. e;
  set_signature = λ signature e. signature;
  commit_status = λ c t channel w. (ok (record { result = pos 0; block_number = 1 }), w);
  from_shared = λ s. ok tt;
  tls_config = λ e config. ok tt;
  connect_endpoint = λ e w. (ok tt, w);
  submit = λ g t channel e w. (ok tt, w);
  endorse_request = λ g r w. (ok tt, w);
  no_transaction = tt;
}

abbrev pub files : FileSystem ℕ
files = record {
  exists = λ path w. true;
  read = λ path w. (ok (1 ∷ []), w);
  read_to_string = λ path w. (ok (1 ∷ []), w);
  create_dir_all = λ path w. (ok tt, w);
  parent = λ path. none;
}

abbrev pub no_variables : Environment ℕ
no_variables = record { var = λ name w. none }

abbrev pub sleeper : Clock ℕ
sleeper = record {
  instant = λ w. w;
  now = λ w. pos 5;
  now_rfc3339 = λ w. [];
  sleep = λ ms w. w + ms * 1000000;
}

abbrev pub sleeper-laws : ClockLaws sleeper
sleeper-laws = record { instant-sleep = λ ms w. le_refl (w + ms * 1000000) }
