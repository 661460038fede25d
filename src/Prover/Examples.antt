-- ===== src/Prover/Examples.antt =====
-- The prover's theorems for a subject whose clearance is two above the required one.
use dzta.Prelude.{
  ◌≡◌, ◌↔◌, refl, true, is_ok, ok, Text, Result, Result-cases, inl, inr, [], ◌∷◌, arith,
}
use dzta.Interfaces.Witnesses.Zmod.{fr}
use dzta.Interfaces.Witnesses.Systems.{listed}
use dzta.Interfaces.Witnesses.Hashes.{checksum, one_character}
use dzta.Interfaces.Witnesses.Proofs.{trusting, certificate}
use dzta.Shared.Subject.{DecryptedCredentialSubject}
use dzta.Shared.Witness.{derive_witness, DerivedEnclaveWitness}
use dzta.Prover.{prove_witness}
use dzta.Prover.Accepts.{prove_witness-subject_iff, Qualifies}

abbrev pub bob : DecryptedCredentialSubject
bob = record {
  user_clearance_level = 5;
  user_role_scalar = 50 ∷ [];
  subject_did = 100 ∷ [];
  credential_id = 49 ∷ [];
}

abbrev pub bobs_witness : DerivedEnclaveWitness
bobs_witness = derive_witness checksum one_character fr bob (1 ∷ [])

abbrev proved : Result Text (Text × Text)
proved = prove_witness one_character fr listed trusting (ok certificate) bobs_witness 3

prove_witness-subject_iff_example :
    (is_ok (prove_witness one_character fr listed trusting (ok certificate) bobs_witness 3) ≡ true)
    ↔ Qualifies bob 3
prove_witness-subject_iff_example =
    prove_witness-subject_iff checksum one_character fr listed trusting certificate bob (1 ∷ []) 3
      (omega arith) (λ c seed satisfied long. (certificate, refl)) (omega arith) (omega arith)

-- The proof that is returned.
pub returned :
    (out : Text × Text) × (prove_witness one_character fr listed trusting
        (ok certificate)
        bobs_witness
        3
      ≡ ok out)
returned = elim (Result-cases proved) [
  | inl found ↦ found
  | inr refused ↦ absurd (
      cc (
        (prove_witness-subject_iff checksum one_character fr listed trusting certificate bob
              (1 ∷ []) 3 (omega arith) (λ c seed satisfied long. (certificate, refl)) (omega arith)
              (omega arith)).1
            (omega arith, omega arith),
        refused.1,
      ))
]
