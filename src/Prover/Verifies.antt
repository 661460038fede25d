-- ===== src/Prover/Verifies.antt =====
-- What the prover returns, and that the edge filter verifies it.
use dzta.Prelude.{
  ℕ, ◌≡◌, refl, sym, ap, ◌∙◌, Text, Result, ok, map_err, map_err-eq-ok, is_ok, Bool, true, false,
  List, length, arith, >>=-eq-ok, ok-injective, utf8,
}
use dzta.Interfaces.PrimeField.{PrimeField}
use dzta.Interfaces.ConstraintSystem.{ConstraintSystem}
use dzta.Interfaces.Crypto.{BigUint}
use dzta.Interfaces.Groth16.{Groth16, Groth16Laws, Base64}
use dzta.Circuit.{RoleVerificationCircuit, check_satisfied, generate_constraints}
use dzta.Circuit.Synthesis.{check_satisfied-synthesised}
use dzta.Shared.Witness.{DerivedEnclaveWitness}
use dzta.Edge.{verify_zkp}
use dzta.Prover.{circuit_of, public_inputs_of, prove_witness, seed_bytes, require_satisfied}

module _ {F System Proof ProvingKey VerifyingKey : Type 0} (big : BigUint) (field : PrimeField F)
    (system : ConstraintSystem F System)
    (groth : Groth16 F (RoleVerificationCircuit F) Proof ProvingKey VerifyingKey) where
  open big use {from_str_radix}

  -- What a proof is made from.
  pub record Proved (key : ProvingKey) (w : DerivedEnclaveWitness) (required : ℕ)
      (out : Text × Text) : Type 0 where
    pub role : ℕ
    pub proof : Proof
    pub parsed : from_str_radix w.user_role_scalar ≡ ok role
    pub satisfied : check_satisfied field system (circuit_of big field w role required) ≡ ok true
    pub proves :
        groth.prove (circuit_of big field w role required) key w.secret_nullifier ≡ ok proof
    pub output : out ≡ (
      groth.serialize_proof proof,
      groth.serialize_inputs (public_inputs_of big field w required),
    )

  require_satisfied-ok : (b : Bool) {u : Unit {0}} → require_satisfied b ≡ ok u → b ≡ true
  require_satisfied-ok true h = refl
  require_satisfied-ok false h = absurd (cc (h))

  seed_bytes-ok : (s t : Text) → seed_bytes s ≡ ok t → s ≡ t
  seed_bytes-ok s t h = ground arith

  -- The circuit's check and the proof, as the prover runs them.
  abbrev checked : DerivedEnclaveWitness → ℕ → ℕ → Result Text Bool
  checked w role required =
      map_err (λ e. utf8 "Failed to synthesize circuit constraints for validation")
        (check_satisfied field system (circuit_of big field w role required))

  pub prove_witness-Proved :
      (key : ProvingKey) (w : DerivedEnclaveWitness) (required : ℕ) {out : Text × Text}
      → prove_witness big field system groth (ok key) w required ≡ ok out
      → Proved key w required out
  unfolding prove_witness
  prove_witness-Proved key w required h =
      let (role, e1, h1) = >>=-eq-ok _ _ h in
      let (seed, e2, h2) = >>=-eq-ok (seed_bytes w.secret_nullifier) _ h1 in
      let (satisfied, e3, h3) = >>=-eq-ok (checked w role required) _ h2 in
      let (_, e4, h4) = >>=-eq-ok (require_satisfied satisfied) _ h3 in
      let (proof, e5, h5) = >>=-eq-ok _ _ h4 in
      record {
        role = role;
        proof = proof;
        parsed = map_err-eq-ok _ (from_str_radix w.user_role_scalar) e1;
        satisfied = map_err-eq-ok _ _ e3 ∙ ap ok (require_satisfied-ok satisfied e4);
        proves =
            ap (groth.prove (circuit_of big field w role required) key) (seed_bytes-ok _ seed e2)
            ∙ map_err-eq-ok _ _ e5;
        output = sym (ok-injective h5);
      }

  pub Proved-prove_witness :
      (key : ProvingKey) (w : DerivedEnclaveWitness) (required role : ℕ) (proof : Proof)
      → from_str_radix w.user_role_scalar ≡ ok role
      → length w.secret_nullifier ≡ 32
      → check_satisfied field system (circuit_of big field w role required) ≡ ok true
      → groth.prove (circuit_of big field w role required) key w.secret_nullifier ≡ ok proof
      → is_ok (prove_witness big field system groth (ok key) w required) ≡ true
  unfolding prove_witness
  Proved-prove_witness key w required role proof parsed long satisfied proves =
      rw (prove_witness, parsed, long, satisfied, proves)

  -- The circuit's constraints hold, with these public inputs.
  abbrev pub Holds : RoleVerificationCircuit F → List F → Type 0
  Holds c xs =
      (cs : System) × (generate_constraints field system c system.new_ref ≡ ok cs)
      × (system.is_satisfied cs ≡ true)
      × (system.inputs cs ≡ xs)

  satisfied-Holds :
      (w : DerivedEnclaveWitness) (role required : ℕ)
      → check_satisfied field system (circuit_of big field w role required) ≡ ok true
      → Holds (circuit_of big field w role required) (public_inputs_of big field w required)
  satisfied-Holds w role required satisfied =
      check_satisfied-synthesised field system _ _ _ _ _ satisfied

  -- What the prover returns for any witness, base64-encoded as it prints it, is verified by the edge
  -- filter under the matching key.
  pub verify_zkp-prove_witness :
      (base64 : Base64) {KeyPair : ProvingKey → VerifyingKey → Type 0}
      (laws : Groth16Laws groth Holds KeyPair) (key : ProvingKey) (pvk : VerifyingKey)
      (w : DerivedEnclaveWitness) (required : ℕ) (proof_bytes public_inputs_bytes : Text)
      → KeyPair key pvk
      → prove_witness big field system groth (ok key) w required
        ≡ ok (proof_bytes, public_inputs_bytes)
      → verify_zkp base64 groth pvk (base64.encode proof_bytes) (base64.encode public_inputs_bytes)
        ≡ ok true
  unfolding verify_zkp
  verify_zkp-prove_witness base64 laws key pvk w required proof_bytes public_inputs_bytes pair h =
      let p = prove_witness-Proved key w required h in
      let proof_eq : proof_bytes ≡ groth.serialize_proof p.proof = ap (λ o. o.0) p.output in
      let inputs_eq : public_inputs_bytes
          ≡ groth.serialize_inputs (public_inputs_of big field w required) =
        ap (λ o. o.1) p.output in
      let verifies =
        laws.complete _ _ key pvk w.secret_nullifier p.proof pair
          (satisfied-Holds w p.role required p.satisfied) p.proves in
      rw (
        verify_zkp,
        base64.decode-encode proof_bytes,
        base64.decode-encode public_inputs_bytes,
        proof_eq,
        inputs_eq,
        laws.deserialize-serialize_proof,
        laws.deserialize-serialize_inputs,
        verifies,
      )
