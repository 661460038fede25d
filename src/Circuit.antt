-- ===== src/Circuit.antt =====
-- zkp-core-crypto/src/lib.rs: the role verification circuit, as its constraint synthesis runs on an
-- assignment. The proofs are in the modules below.
pub mod Range
pub mod Clearance
pub mod Synthesis
mod Examples
use dzta.Prelude.{Bool, Option, Result, ok, ok_or, ◌>>=◌, take}
use dzta.Interfaces.PrimeField.{PrimeField}
use dzta.Interfaces.ConstraintSystem.{ConstraintSystem, SynthesisError, assignment_missing}

pub record RoleVerificationCircuit (F : Type 0) : Type 0 where
  pub user_clearance_level : Option F
  pub user_role_scalar : Option F
  pub secret_nullifier : Option F
  pub required_clearance_level : Option F
  pub public_commitment : Option F

module _ {F System : Type 0} (field : PrimeField F) (system : ConstraintSystem F System) where
  open field use {sub, mul, to_bits_le, le_bits_to_fp}
  open system use {new_ref, new_witness, new_input, enforce_equal, is_satisfied}

  -- The closure that a variable is allocated with fails on a slot that is not assigned.
  pub generate_constraints : RoleVerificationCircuit F → System → Result SynthesisError System
  generate_constraints circuit cs = do
    user_clearance ← ok_or circuit.user_clearance_level assignment_missing
    let cs₁ = new_witness user_clearance cs
    role_scalar ← ok_or circuit.user_role_scalar assignment_missing
    let cs₂ = new_witness role_scalar cs₁
    nullifier ← ok_or circuit.secret_nullifier assignment_missing
    let cs₃ = new_witness nullifier cs₂
    req_clearance ← ok_or circuit.required_clearance_level assignment_missing
    let cs₄ = new_input req_clearance cs₃
    commitment ← ok_or circuit.public_commitment assignment_missing
    let cs₅ = new_input commitment cs₄
    let diff = sub user_clearance req_clearance
    let diff_bits = to_bits_le diff
    let truncated_diff = le_bits_to_fp (take 8 diff_bits)
    let cs₆ = enforce_equal diff truncated_diff cs₅
    let expected_commitment = mul (mul nullifier user_clearance) role_scalar
    ok (enforce_equal expected_commitment commitment cs₆)

  -- Synthesis on a fresh system, then the check that the Gramine prover makes before it proves.
  pub check_satisfied : RoleVerificationCircuit F → Result SynthesisError Bool
  unfolding generate_constraints
  check_satisfied circuit = do cs ← generate_constraints circuit new_ref; ok (is_satisfied cs)
