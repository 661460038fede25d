-- ===== src/Broker/Quote/Bound.antt =====
-- The report of an enclave that has bound its session, at the broker.
use dzta.Prelude.{ℕ, ◌≡◌, refl, Text, ok}
use dzta.Interfaces.Crypto.{Sha256}
use dzta.Interfaces.Groth16.{Base64}
use dzta.Broker.Session.{binding, bind_session, take-bind_session}
use dzta.Broker.Quote.{QuoteLibrary, check_report}
use dzta.Broker.Quote.Accepted.{check_report_iff}

-- The broker's checks of a report pass for an enclave of the expected measurement and signer whose
-- report data is what the enclave has bound for the public key and the level of the request.
pub check_report-bind_session :
    {Collateral : Type 0} (sha : Sha256) (base64 : Base64) (library : QuoteLibrary Collateral)
    (mrenclave mrsigner key : Text) (level : ℕ)
    → check_report sha base64 library mrenclave mrsigner key level (record {
      mr_enclave = mrenclave;
      mr_signer = mrsigner;
      report_data = bind_session sha (binding key level);
    })
      ≡ ok tt
check_report-bind_session sha base64 library mrenclave mrsigner key level =
    (check_report_iff sha base64 library mrenclave mrsigner key level _).1
      (refl, refl, take-bind_session sha (binding key level))
