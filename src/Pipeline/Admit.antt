-- ===== src/Pipeline/Admit.antt =====
-- From the Gramine prover to the edge filter: what is proved in the enclave is admitted at the edge.
use dzta.Prelude.{ℕ, ◌≡◌, ◌≢◌, refl, Text, ok, some, false, utf8, starts_with}
use dzta.Interfaces.PrimeField.{PrimeField}
use dzta.Interfaces.ConstraintSystem.{ConstraintSystem}
use dzta.Interfaces.Crypto.{BigUint}
use dzta.Interfaces.Groth16.{Groth16, Groth16Laws, Base64}
use dzta.Interfaces.SharedData.{SharedData}
use dzta.Circuit.{RoleVerificationCircuit}
use dzta.Shared.Witness.{DerivedEnclaveWitness}
use dzta.Prover.{prove_witness}
use dzta.Prover.Verifies.{Holds, verify_zkp-prove_witness}
use dzta.Edge.{
  PluginConfig, Headers, continue, path_of, admin_prefix, on_http_request_headers, revoked_key,
  yes_bytes,
}
use dzta.Edge.Gate.{on_http_request_headers-continue_iff}

module _ {F System Proof ProvingKey VerifyingKey Store : Type 0} (big : BigUint)
    (field : PrimeField F) (system : ConstraintSystem F System)
    (groth : Groth16 F (RoleVerificationCircuit F) Proof ProvingKey VerifyingKey) (base64 : Base64)
    (host : SharedData Store) where
  -- A request with what the prover returned for a witness, base64-encoded, in its headers.
  pub record Carries (header : Headers) (proof_bytes public_inputs_bytes rev_id : Text)
      : Type 0 where
    pub proof : header (utf8 "x-dzta-proof") ≡ some (base64.encode proof_bytes)
    pub inputs : header (utf8 "x-dzta-public-inputs") ≡ some (base64.encode public_inputs_bytes)
    pub revocation : header (utf8 "x-dzta-revocation-id") ≡ some rev_id
    pub public_path : starts_with (path_of header) admin_prefix ≡ false

  -- With a proof system that verifies what it proves of a satisfied circuit under the matching key, the
  -- filter lets every request pass that carries what the prover returned for some witness, on a path
  -- that is no admin path, with any revocation id that is not marked.
  pub prove_witness-continue :
      {KeyPair : ProvingKey → VerifyingKey → Type 0}
      (laws : Groth16Laws groth (Holds big field system groth) KeyPair) (key : ProvingKey)
      (pvk : VerifyingKey) (w : DerivedEnclaveWitness) (required : ℕ)
      (proof_bytes public_inputs_bytes rev_id : Text) (config : PluginConfig) (header : Headers)
      (s : Store)
      → KeyPair key pvk
      → prove_witness big field system groth (ok key) w required
        ≡ ok (proof_bytes, public_inputs_bytes)
      → Carries header proof_bytes public_inputs_bytes rev_id
      → host.get_shared_data (revoked_key rev_id) s ≢ some yes_bytes
      → (on_http_request_headers host base64 groth config (some pvk) header s).0.action ≡ continue
  prove_witness-continue laws key pvk w required proof_bytes public_inputs_bytes rev_id config
        header s pair proved c allowed =
      (on_http_request_headers-continue_iff host base64 groth config (some pvk) header s).1 (
        c.public_path,
        record {
          key = pvk;
          proof = base64.encode proof_bytes;
          inputs = base64.encode public_inputs_bytes;
          rev_id = rev_id;
          has_key = refl;
          has_proof = c.proof;
          has_inputs = c.inputs;
          has_rev_id = c.revocation;
          not_revoked = allowed;
          verified =
              verify_zkp-prove_witness big field system groth base64 laws key pvk w required
                proof_bytes public_inputs_bytes pair proved;
        },
      )
