-- ===== src/Broker/Quote/Accepted.antt =====
-- Which quotes the broker accepts.
use dzta.Prelude.{
  ok_or-eq-ok, ℕ, ◌≡◌, ◌↔◌, sym, ap, ◌∙◌, Text, ok, map_err-eq-ok, >>=-eq-ok, ok-injective, some,
  take, text_eq_iff, arith, text_eq_refl,
}
use dzta.Interfaces.Crypto.{Sha256}
use dzta.Interfaces.Groth16.{Base64}
use dzta.Broker.{VerifiedEnclave, AppState}
use dzta.Broker.Session.{binding, session_digest, expected_report_data, expected-session_digest}
use dzta.Broker.Quote.{SgxReport, QuoteLibrary, verify_sgx_quote, check_report}

module _ {Collateral : Type 0} (sha : Sha256) (base64 : Base64)
    (library : QuoteLibrary Collateral) where
  pub check_report_iff :
      (mrenclave mrsigner key : Text) (level : ℕ) (report : SgxReport)
      → (check_report sha base64 library mrenclave mrsigner key level report ≡ ok tt) ↔ (
          (report.mr_enclave ≡ mrenclave)
          × (report.mr_signer ≡ mrsigner)
          × (take 32 report.report_data ≡ session_digest sha (binding key level)))
  unfolding check_report
  check_report_iff mrenclave mrsigner key level report = (
    λ h. (
      ground (arith, text_eq_iff report.mr_enclave mrenclave),
      ground (arith, text_eq_iff report.mr_signer mrsigner),
      ground (
        arith,
        text_eq_iff (take 32 report.report_data) (expected_report_data sha key level),
        expected-session_digest sha key level,
      ),
    ),
    λ h. rw (
      check_report,
      h.0,
      h.1,
      h.2,
      expected-session_digest sha key level,
      text_eq_refl mrenclave,
      text_eq_refl mrsigner,
      text_eq_refl (session_digest sha (binding key level)),
    ),
  )

module _ {Collateral World : Type 0} (sha : Sha256) (base64 : Base64)
    (library : QuoteLibrary Collateral) where
  -- A quote that verifies, of the expected enclave and for the session.
  pub record Attested (state : AppState World) (quote_b64 enclave_public_key : Text) (level : ℕ)
      (enclave : VerifiedEnclave) : Type 0 where
    pub quote : Text
    pub collateral : Collateral
    pub time : ℕ
    pub report : SgxReport
    pub decoded : base64.decode quote_b64 ≡ ok quote
    pub reached : library.with_default_http state.pccs_url ≡ ok tt
    pub fetched : library.fetch state.pccs_url quote ≡ ok collateral
    pub clock : library.now ≡ ok time
    pub verified : library.verify_with_policy quote collateral time ≡ ok (some report)
    pub measurement : report.mr_enclave ≡ state.expected_mrenclave
    pub signer : report.mr_signer ≡ state.expected_mrsigner
    pub session : take 32 report.report_data ≡ session_digest sha (binding enclave_public_key level)
    pub result : enclave ≡ record {
      quote = quote;
      report_data = report.report_data;
      enclave_public_key = enclave_public_key;
      mrenclave = library.hex report.mr_enclave;
      mrsigner = library.hex report.mr_signer;
    }

  -- A quote is accepted exactly when it decodes, the collateral and the clock are there, the quote
  -- verifies as one of an SGX enclave, the enclave and its signer are the expected ones, and the first
  -- 32 bytes of the report data are the digest of the public key and the required level; the enclave
  -- that is returned carries the quote's data and that public key.
  pub verify_sgx_quote_iff :
      (state : AppState World) (quote_b64 key : Text) (level : ℕ) (enclave : VerifiedEnclave)
      → (verify_sgx_quote sha base64 library state quote_b64 key level ≡ ok enclave)
        ↔ Attested state quote_b64 key level enclave
  unfolding verify_sgx_quote
  verify_sgx_quote_iff state quote_b64 key level enclave = (
    λ h.
        let (quote, e1, h1) = >>=-eq-ok _ _ h in
        let (u, e2, h2) = >>=-eq-ok _ _ h1 in
        let (collateral, e3, h3) = >>=-eq-ok _ _ h2 in
        let (time, e4, h4) = >>=-eq-ok _ _ h3 in
        let (claims, e5, h5) = >>=-eq-ok _ _ h4 in
        let (report, e6, h6) = >>=-eq-ok _ _ h5 in
        let (v, e7, h7) =
          >>=-eq-ok
            (check_report sha base64 library state.expected_mrenclave state.expected_mrsigner key
              level report)
            _ h6 in
        let checks =
          (check_report_iff sha base64 library state.expected_mrenclave state.expected_mrsigner key
              level report).0
            e7 in
        record {
          quote = quote;
          collateral = collateral;
          time = time;
          report = report;
          decoded = map_err-eq-ok _ _ e1;
          reached = map_err-eq-ok _ _ e2;
          fetched = map_err-eq-ok _ _ e3;
          clock = map_err-eq-ok _ _ e4;
          verified = map_err-eq-ok _ _ e5 ∙ ap ok (ok_or-eq-ok claims _ e6);
          measurement = checks.0;
          signer = checks.1;
          session = checks.2;
          result = sym (ok-injective h7);
        },
    λ a.
        let checks =
          (check_report_iff sha base64 library state.expected_mrenclave state.expected_mrsigner key
              level a.report).1
            (a.measurement, a.signer, a.session) in
        rw (
          verify_sgx_quote, a.decoded, a.reached, a.fetched, a.clock, a.verified, checks, a.result,
        ),
  )
