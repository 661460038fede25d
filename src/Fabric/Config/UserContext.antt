-- ===== src/Fabric/Config/UserContext.antt =====
-- `UserContext`: the certificate, the key and the MSP id of a user.
use dzta.Prelude.{Text, ok, ◌>>=◌, is_empty, utf8}
use dzta.Errors.{WalletResult, config_error}
use dzta.Fabric.Config.{forbid}

pub record UserContext : Type 0 where
  pub cert_pem : Text
  pub key_pem : Text
  pub msp_id : Text

unfoldable pub new : Text → Text → Text → WalletResult UserContext
new cert_pem key_pem msp_id = do
  _ ← forbid (is_empty cert_pem) (config_error (utf8 "Certificate cannot be empty"))
  _ ← forbid (is_empty key_pem) (config_error (utf8 "Private key cannot be empty"))
  _ ← forbid (is_empty msp_id) (config_error (utf8 "MSP ID cannot be empty"))
  ok (record { cert_pem = cert_pem; key_pem = key_pem; msp_id = msp_id })

abbrev pub get_cert_pem : UserContext → Text
get_cert_pem user_context = user_context.cert_pem

abbrev pub get_key_pem : UserContext → Text
get_key_pem user_context = user_context.key_pem

abbrev pub get_msp_id : UserContext → Text
get_msp_id user_context = user_context.msp_id
