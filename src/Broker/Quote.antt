-- ===== src/Broker/Quote.antt =====
-- verify_sgx_quote of dzta-attestation-broker/src/routes/datakey.rs.
pub mod Accepted
pub mod Bound
use dzta.Prelude.{
  ℕ, Text, Result, ok, err, map_err, ok_or, ◌>>=◌, ◌++◌, Option, utf8, String, text_eq, take, not,
  ◌||◌, if◌then◌else◌,
}
use dzta.Interfaces.Crypto.{Sha256}
use dzta.Interfaces.Groth16.{Base64}
use dzta.Broker.{VerifiedEnclave, AppState, ApiError}
use dzta.Broker.Session.{expected_report_data}

-- The body of an SGX report; `report_data` has 64 bytes.
pub record SgxReport : Type 0 where
  pub mr_enclave : Text
  pub mr_signer : Text
  pub report_data : Text

-- dcap_qvl, the clock and hex::encode. The claims of a quote that verifies are its report, if it is an
-- SGX quote.
pub record QuoteLibrary (Collateral : Type 0) : Type 0 where
  -- with_default_http(url), then fetch(quote)
  pub with_default_http : Text → Result Text (Unit {0})
  pub fetch : Text → Text → Result Text Collateral
  pub now : Result Text ℕ
  -- verify_with_policy(quote, collateral, now, strict(now)), then `report.as_sgx()`
  pub verify_with_policy : Text → Collateral → ℕ → Result Text (Option SgxReport)
  pub hex : Text → Text

abbrev pub api_error : ℕ → String → Text → ApiError
api_error status message e = record { status = status; error = utf8 message ++ e }

abbrev pub bad_request : String → ApiError
bad_request message = record { status = 400; error = utf8 message }

module _ {Collateral : Type 0} (sha : Sha256) (base64 : Base64)
    (library : QuoteLibrary Collateral) where
  open library use {with_default_http, fetch, now, verify_with_policy, hex}

  -- The measurement and the session of a report.
  unfoldable pub check_report : Text → Text → Text → ℕ → SgxReport → Result ApiError (Unit {0})
  check_report expected_mrenclave expected_mrsigner enclave_public_key required_clearance_level
        report =
      if not (text_eq report.mr_enclave expected_mrenclave)
        || not (text_eq report.mr_signer expected_mrsigner)
      then err (bad_request "Unexpected enclave measurement or signer")
      else if not (
          text_eq (take 32 report.report_data)
            (expected_report_data sha enclave_public_key required_clearance_level))
      then err (bad_request "Quote report data does not match requested session")
      else ok tt

  unfoldable pub verify_sgx_quote :
      {World : Type 0} → AppState World → Text → Text → ℕ → Result ApiError VerifiedEnclave
  unfolding check_report
  verify_sgx_quote state quote_b64 enclave_public_key required_clearance_level = do
    quote ← map_err (api_error 400 "Invalid base64 quote: ") (base64.decode quote_b64)
    _ ← map_err (api_error 500 "PCCS client error: ") (with_default_http state.pccs_url)
    collateral ← map_err (api_error 500 "Failed to fetch collateral: ") (fetch state.pccs_url quote)
    time ← map_err (api_error 500 "") now
    claims ←
        map_err (api_error 400 "Quote verification failed: ")
          (verify_with_policy quote collateral time)
    report ← ok_or claims (bad_request "Quote is not an SGX quote")
    _ ←
        check_report state.expected_mrenclave state.expected_mrsigner enclave_public_key
          required_clearance_level report
    ok (record {
      quote = quote;
      report_data = report.report_data;
      enclave_public_key = enclave_public_key;
      mrenclave = hex report.mr_enclave;
      mrsigner = hex report.mr_signer;
    })
