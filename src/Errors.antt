-- ===== src/Errors.antt =====
-- shared/src/errors.rs: the error types that the crates share.
use dzta.Prelude.{ℕ, Text, Result}

-- The payload of `SerializationError` and `Request` is the text that the library's error displays.
pub data WalletError : Type 0 where
  fabric_error vcx_error askar_error storage_error chaincode_failed : Text → WalletError
  invalid_response : WalletError
  serialization_error network_error config_error credential_not_found did_not_found :
      Text → WalletError
  invalid_witness signing_error transaction_failed grpc_error revocation_error : Text → WalletError
  transaction_timeout : WalletError
  execution_failed wallet_request unknown : Text → WalletError

pub data BrokerError : Type 0 where
  request : Text → BrokerError
  provider : ℕ → Text → BrokerError
  wallet : WalletError → BrokerError
  response : Text → BrokerError
  configuration : Text → BrokerError

abbrev pub WalletResult : Type 0 → Type 0
WalletResult A = Result WalletError A

abbrev pub BrokerResult : Type 0 → Type 0
BrokerResult A = Result BrokerError A
