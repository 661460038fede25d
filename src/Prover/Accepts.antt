-- ===== src/Prover/Accepts.antt =====
-- For which subjects the prover returns a proof.
use dzta.Prelude.{
  ℕ, ◌+◌, ◌^◌, ◌≤◌, ◌<◌, ◌≡◌, ◌↔◌, sym, Text, ok, is_ok, true, length, Result-cases, inl, inr,
}
use dzta.Interfaces.PrimeField.{PrimeField}
use dzta.Interfaces.ConstraintSystem.{ConstraintSystem}
use dzta.Interfaces.Crypto.{Sha256, BigUint}
use dzta.Interfaces.Groth16.{Groth16}
use dzta.Circuit.{RoleVerificationCircuit, check_satisfied}
use dzta.Circuit.Clearance.{check_satisfied-levels_iff}
use dzta.Shared.Scalar.{string_to_scalar}
use dzta.Shared.Scalar.Laws.{
  from_str_radix-string_to_scalar, compute_commitment_product, length-derive_nullifier,
}
use dzta.Shared.Subject.{DecryptedCredentialSubject}
use dzta.Shared.Witness.{derive_witness}
use dzta.Prover.{circuit_of, prove_witness}
use dzta.Prover.Verifies.{prove_witness-Proved, Proved-prove_witness}

-- The required level is met, by at most 255.
abbrev pub Qualifies : DecryptedCredentialSubject → ℕ → Type 0
Qualifies subject required =
    (required ≤ subject.user_clearance_level) × (subject.user_clearance_level ≤ required + 255)

module _ {F System Proof ProvingKey VerifyingKey : Type 0} (sha : Sha256) (big : BigUint)
    (field : PrimeField F) (system : ConstraintSystem F System)
    (groth : Groth16 F (RoleVerificationCircuit F) Proof ProvingKey VerifyingKey) where
  open big use {from_str_radix}

  circuit_satisfied_iff :
      (subject : DecryptedCredentialSubject) (master_seed : Text) (required n : ℕ)
      → 2 ^ 65 ≤ field.modulus
      → subject.user_clearance_level < 2 ^ 64
      → required < 2 ^ 64
      → from_str_radix (string_to_scalar sha big subject.user_role_scalar) ≡ ok n
      → (check_satisfied field system
            (circuit_of big field (derive_witness sha big field subject master_seed) n required)
          ≡ ok true)
        ↔ Qualifies subject required
  unfolding derive_witness
  circuit_satisfied_iff subject master_seed required n large hc hr parsed =
      let w = derive_witness sha big field subject master_seed in
      let product =
        compute_commitment_product sha big field w.secret_nullifier subject.user_role_scalar
          subject.user_clearance_level n parsed in
      let levels =
        check_satisfied-levels_iff field system large subject.user_clearance_level required _ _ _ hc
          hr in
      (λ h. ((levels.0 h).0, (levels.0 h).1), λ h. levels.1 (h.0, h.1, sym product))

  -- The library proves every circuit that is satisfied.
  abbrev pub Proves : ProvingKey → Type 0
  Proves key =
      (c : RoleVerificationCircuit F) (seed : Text)
      → check_satisfied field system c ≡ ok true
      → length seed ≡ 32
      → (proof : Proof) × (groth.prove c key seed ≡ ok proof)

  -- In a field whose prime has more than 65 bits, with a key under which satisfied circuits can be
  -- proved, and at 64-bit levels, the prover returns a proof for a subject exactly when the subject's
  -- clearance reaches the required level and exceeds it by at most 255.
  pub prove_witness-subject_iff :
      (key : ProvingKey) (subject : DecryptedCredentialSubject) (master_seed : Text) (required : ℕ)
      → 2 ^ 65 ≤ field.modulus
      → Proves key
      → subject.user_clearance_level < 2 ^ 64
      → required < 2 ^ 64
      → (is_ok (
            prove_witness big field system groth
              (ok key)
              (derive_witness sha big field subject master_seed)
              required)
          ≡ true)
        ↔ Qualifies subject required
  unfolding derive_witness
  prove_witness-subject_iff key subject master_seed required large complete hc hr =
      let w = derive_witness sha big field subject master_seed in
      let (n, parsed) = from_str_radix-string_to_scalar sha big subject.user_role_scalar in
      let accepts = circuit_satisfied_iff subject master_seed required n large hc hr parsed in
      (
        λ h. elim (Result-cases (prove_witness big field system groth (ok key) w required)) [
          | inl (out, e) ↦
              let p = prove_witness-Proved big field system groth key w required e in
              (circuit_satisfied_iff subject master_seed required p.role large hc hr p.parsed).0
                p.satisfied
          | inr (m, e) ↦ absurd (cc (h, e))
        ],
        λ h.
            let satisfied = accepts.1 h in
            let (proof, proves) =
              complete _ w.secret_nullifier satisfied (length-derive_nullifier sha _ _ _) in
            Proved-prove_witness big field system groth key w required n proof parsed
              (length-derive_nullifier sha _ _ _) satisfied proves,
      )
