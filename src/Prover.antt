-- ===== src/Prover.antt =====
-- dzta-gramine-prover/src/main.rs: from an unsealed witness to a proof and its public inputs.
pub mod Examples
pub mod Accepts
pub mod Verifies
use dzta.Prelude.{
  String, ℕ, Text, Result, ok, err, map_err, ◌>>=◌, ◌++◌, Option, none, some, Bool, true, false,
  List, [], ◌∷◌, utf8, length, ◌==◌, if◌then◌else◌,
}
use dzta.Interfaces.PrimeField.{PrimeField}
use dzta.Interfaces.ConstraintSystem.{ConstraintSystem}
use dzta.Interfaces.Crypto.{BigUint}
use dzta.Interfaces.Groth16.{Groth16, Base64}
use dzta.Circuit.{RoleVerificationCircuit, check_satisfied}
use dzta.Shared.Witness.{DerivedEnclaveWitness}

-- anyhow's `context`: the message that is printed first.
abbrev pub context : {A : Type 0} → String → Result Text A → Result Text A
context message r = map_err (λ e. utf8 message) r

-- `<[u8; 32]>::try_from`
abbrev pub seed_bytes : Text → Result Text Text
seed_bytes nullifier =
    if length nullifier == 32
    then ok nullifier
    else err (utf8 "secret_nullifier must be exactly 32 bytes")

-- Where the constraints are not satisfied the prover stops before it proves.
abbrev pub require_satisfied : Bool → Result Text (Unit {0})
require_satisfied true = ok tt
require_satisfied false = err (
    utf8
      "Circuit constraints not satisfied for provided witness (clearance level below required threshold)")

module _ {F : Type 0} (big : BigUint) (field : PrimeField F) where
  open big use {to_bytes_le}
  open field use {from_u64, from_le_bytes_mod_order}

  -- Steps 4 and 7: the circuit of a witness, at the number of its role.
  abbrev pub circuit_of : DerivedEnclaveWitness → ℕ → ℕ → RoleVerificationCircuit F
  circuit_of derived_witness role_biguint required_clearance_level = record {
    user_clearance_level = some (from_u64 derived_witness.clearance_level);
    user_role_scalar = some (from_le_bytes_mod_order (to_bytes_le role_biguint));
    secret_nullifier = some (from_le_bytes_mod_order derived_witness.secret_nullifier);
    required_clearance_level = some (from_u64 required_clearance_level);
    public_commitment = some (from_le_bytes_mod_order derived_witness.public_commitment);
  }

  abbrev pub public_inputs_of : DerivedEnclaveWitness → ℕ → List F
  public_inputs_of derived_witness required_clearance_level =
      from_u64 required_clearance_level
      ∷ from_le_bytes_mod_order derived_witness.public_commitment
      ∷ []

  module _ {System Proof ProvingKey VerifyingKey : Type 0} (system : ConstraintSystem F System)
      (groth : Groth16 F (RoleVerificationCircuit F) Proof ProvingKey VerifyingKey) where
    -- Steps 4 to 9: the compressed proof and the compressed public inputs. The first argument is the
    -- deserialised proving key of the build.
    pub prove_witness :
        Result Text ProvingKey → DerivedEnclaveWitness → ℕ → Result Text (Text × Text)
    prove_witness proving_key derived_witness required_clearance_level = do
      role_biguint ←
          context "Failed to parse user_role_scalar BigUint"
            (big.from_str_radix derived_witness.user_role_scalar)
      key ← context "Failed to deserialize BLS12-381 Proving Key" proving_key
      seed ← seed_bytes derived_witness.secret_nullifier
      let circuit = circuit_of derived_witness role_biguint required_clearance_level
      satisfied ←
          map_err (λ e. utf8 "Failed to synthesize circuit constraints for validation")
            (check_satisfied field system circuit)
      _ ← require_satisfied satisfied
      proof ← map_err (λ e. utf8 "ZKP Generation Failed: " ++ e) (groth.prove circuit key seed)
      ok (
        groth.serialize_proof proof,
        groth.serialize_inputs (public_inputs_of derived_witness required_clearance_level),
      )
