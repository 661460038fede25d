-- ===== src/Interfaces/Groth16.antt =====
-- ark_groth16 over a curve, ark_serialize and base64, as the provers and the edge filter call them.
use dzta.Prelude.{◌≡◌, Text, Result, ok, true, Bool, List}

-- base64::engine::general_purpose::STANDARD
pub record Base64 : Type 0 where
  pub encode : Text → Text
  pub decode : Text → Result Text Text
  pub decode-encode : (s : Text) → decode (encode s) ≡ ok s

-- The circuit type is a parameter: what is proved is a value of it.
pub record Groth16 (F Circuit Proof ProvingKey VerifyingKey : Type 0) : Type 0 where
  -- create_random_proof_with_reduction with an RNG seeded by 32 bytes
  pub prove : Circuit → ProvingKey → Text → Result Text Proof
  -- verify_proof against the prepared key
  pub verify_proof : VerifyingKey → Proof → List F → Result Text Bool
  -- serialize_compressed and deserialize_compressed
  pub serialize_proof : Proof → Text
  pub deserialize_proof : Text → Result Text Proof
  pub serialize_inputs : List F → Text
  pub deserialize_inputs : Text → Result Text (List F)

-- Serialisation is undone, and a proof of a satisfied circuit verifies under the matching key.
pub record Groth16Laws {F Circuit Proof ProvingKey VerifyingKey : Type 0}
    (groth : Groth16 F Circuit Proof ProvingKey VerifyingKey) (Holds : Circuit → List F → Type 0)
    (KeyPair : ProvingKey → VerifyingKey → Type 0) : Type 0 where
  pub deserialize-serialize_proof :
      (p : Proof) → groth.deserialize_proof (groth.serialize_proof p) ≡ ok p
  pub deserialize-serialize_inputs :
      (xs : List F) → groth.deserialize_inputs (groth.serialize_inputs xs) ≡ ok xs
  pub complete :
      (c : Circuit) (xs : List F) (pk : ProvingKey) (vk : VerifyingKey) (seed : Text) (p : Proof)
      → KeyPair pk vk
      → Holds c xs
      → groth.prove c pk seed ≡ ok p
      → groth.verify_proof vk p xs ≡ ok true
