-- ===== src/Shared/Witness/Agreement.antt =====
-- The two derivations of the commitment agree: through its bytes, as the enclave's witness carries
-- it, and through the field, as process_unsealed_witness computes it.
use dzta.Prelude.{ℕ, ◌≡◌, refl, Text, ok}
use dzta.Interfaces.PrimeField.{PrimeField}
use dzta.Interfaces.Crypto.{Sha256, BigUint}
use dzta.Shared.Scalar.Laws.{from_str_radix-string_to_scalar, compute_commitment_product}
use dzta.Shared.Scalar.{derive_nullifier}
use dzta.Shared.Subject.{DecryptedCredentialSubject}
use dzta.Shared.Witness.{FieldWitness, process_unsealed_witness, derive_witness}

module _ {F : Type 0} (sha : Sha256) (big : BigUint) (field : PrimeField F) where
  open field use {from_le_bytes_mod_order, from_u64, mul}

  -- The field witness of a subject.
  pub record Agrees (subject : DecryptedCredentialSubject) (master_seed : Text) (required : ℕ)
      (w : FieldWitness F) : Type 0 where
    pub processed : process_unsealed_witness sha big field subject master_seed required ≡ ok w
    pub commitment :
        from_le_bytes_mod_order (derive_witness sha big field subject master_seed).public_commitment
        ≡ w.public_commitment
    pub nullifier :
        from_le_bytes_mod_order (derive_witness sha big field subject master_seed).secret_nullifier
        ≡ w.secret_nullifier
    pub product : w.public_commitment ≡ mul (mul w.secret_nullifier w.user_clearance) w.role_scalar
    pub clearance : w.user_clearance ≡ from_u64 subject.user_clearance_level
    pub required_clearance : w.req_clearance ≡ from_u64 required

  -- The witness at the number `n` of the subject's role.
  witness_at : DecryptedCredentialSubject → Text → ℕ → ℕ → FieldWitness F
  witness_at subject master_seed required n =
      let nullifier_bytes =
        derive_nullifier sha subject.subject_did subject.credential_id master_seed in
      let nullifier_fr = from_le_bytes_mod_order nullifier_bytes in
      let role_scalar_fr = from_le_bytes_mod_order (big.to_bytes_le n) in
      record {
        user_clearance = from_u64 subject.user_clearance_level;
        role_scalar = role_scalar_fr;
        secret_nullifier = nullifier_fr;
        req_clearance = from_u64 required;
        public_commitment =
            mul (mul nullifier_fr (from_u64 subject.user_clearance_level)) role_scalar_fr;
        nullifier_bytes = nullifier_bytes;
      }

  -- For every subject the witness can be processed, whatever its role string, and the processed
  -- commitment and nullifier are those of the derived witness.
  pub process_unsealed_witness-derive_witness :
      (subject : DecryptedCredentialSubject) (master_seed : Text) (required : ℕ)
      → (w : FieldWitness F) × Agrees subject master_seed required w
  unfolding process_unsealed_witness derive_witness witness_at
  process_unsealed_witness-derive_witness subject master_seed required =
      let (n, parsed) = from_str_radix-string_to_scalar sha big subject.user_role_scalar in
      (
        witness_at subject master_seed required n,
        record {
          processed = rw (process_unsealed_witness, parsed);
          commitment =
              compute_commitment_product sha big field _ subject.user_role_scalar
                subject.user_clearance_level n parsed;
          nullifier = refl;
          product = refl;
          clearance = refl;
          required_clearance = refl;
        },
      )
