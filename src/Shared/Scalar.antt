-- ===== src/Shared/Scalar.antt =====
-- string_to_scalar, derive_nullifier and compute_commitment of shared/src/zkp_core.rs.
pub mod Laws
use dzta.Prelude.{ℕ, ◌%◌, Text, Result, ok, err, is_ok, ◌++◌, is_empty, utf8, if◌then◌else◌}
use dzta.Interfaces.PrimeField.{PrimeField}
use dzta.Interfaces.Crypto.{Sha256, BigUint}

-- BLS12_381_SCALAR_FIELD_PRIME, parsed
abbrev pub scalar_field_prime : ℕ
scalar_field_prime = 52435875175126190479447740508185965837690552500527637822603658699938581184513

module _ (sha : Sha256) (big : BigUint) where
  open sha use {digest}
  open big use {from_str_radix, to_str_radix, from_bytes_be, to_bytes_le}

  pub string_to_scalar : Text → Text
  string_to_scalar input =
      if is_empty input
      then utf8 "0"
      else if is_ok (from_str_radix input)
      then input
      else (let num = from_bytes_be (digest input) in to_str_radix (num % scalar_field_prime))

-- The arguments are the subject's DID, the credential's id and the 32 bytes of the master seed.
pub derive_nullifier : Sha256 → Text → Text → Text → Text
derive_nullifier sha subject_did credential_id secret_seed =
    sha.digest (utf8 "dZTA_NULLIFIER_DOMAIN_v1" ++ (subject_did ++ (credential_id ++ secret_seed)))

-- Rust's `unwrap_or_default` on a number.
abbrev unwrap_or_zero : Result Text ℕ → ℕ
unwrap_or_zero (ok n) = n
unwrap_or_zero (err e) = 0

module _ {F : Type 0} (sha : Sha256) (big : BigUint) (field : PrimeField F) where
  open big use {from_str_radix, to_bytes_le}
  open field use {from_u64, from_le_bytes_mod_order, mul}

  pub compute_commitment : Text → ℕ → Text → Text
  compute_commitment nullifier_bytes user_clearance role_scalar_str =
      let nullifier_fr = from_le_bytes_mod_order nullifier_bytes in
      let clearance_fr = from_u64 user_clearance in
      let normalized_role = string_to_scalar sha big role_scalar_str in
      let role_biguint = unwrap_or_zero (from_str_radix normalized_role) in
      let role_fr = from_le_bytes_mod_order (to_bytes_le role_biguint) in
      field.to_bytes_le (mul (mul nullifier_fr clearance_fr) role_fr)
