-- ===== src/Interfaces/PrimeField.antt =====
-- ark_ff::PrimeField and the R1CS gadgets of ark_r1cs_std over it, as zkp-core-crypto, shared and
-- the provers use them.
use dzta.Prelude.{ℕ, ◌+◌, ◌-◌, ◌*◌, ◌%◌, ◌<◌, ◌≡◌, Bool, true, false, List, [], ◌∷◌}

-- The number that a little-endian string of bits, or of bytes, stands for.
abbrev pub bits_value : List Bool → ℕ
bits_value [] = 0
bits_value (true ∷ bs) = 1 + 2 * bits_value bs
bits_value (false ∷ bs) = 2 * bits_value bs

abbrev pub bytes_value : List ℕ → ℕ
bytes_value [] = 0
bytes_value (b ∷ bs) = b + 256 * bytes_value bs

-- `F` is the field's type, such as `ark_bls12_381::Fr`.
pub record PrimeField (F : Type 0) : Type 0 where
  pub modulus : ℕ
  -- F::from(u64)
  pub from_u64 : ℕ → F
  pub from_le_bytes_mod_order : List ℕ → F
  -- into_bigint(), as a number
  pub into_bigint : F → ℕ
  -- into_bigint().to_bytes_le()
  pub to_bytes_le : F → List ℕ
  pub sub : F → F → F
  pub mul : F → F → F
  -- FpVar::to_bits_le: the canonical bits, MODULUS_BIT_SIZE of them
  pub to_bits_le : F → List Bool
  -- Boolean::le_bits_to_fp
  pub le_bits_to_fp : List Bool → F
  pub into_bigint-lt : (a : F) → into_bigint a < modulus
  pub into_bigint_injective : (a b : F) → into_bigint a ≡ into_bigint b → a ≡ b
  pub into_bigint-from_u64 : (n : ℕ) → into_bigint (from_u64 n) ≡ n % modulus
  pub into_bigint-from_le_bytes :
      (bs : List ℕ) → into_bigint (from_le_bytes_mod_order bs) ≡ bytes_value bs % modulus
  pub bytes_value-to_bytes_le : (a : F) → bytes_value (to_bytes_le a) ≡ into_bigint a
  pub into_bigint-sub :
      (a b : F) → into_bigint (sub a b) ≡ (into_bigint a + modulus - into_bigint b) % modulus
  pub into_bigint-mul :
      (a b : F) → into_bigint (mul a b) ≡ (into_bigint a * into_bigint b) % modulus
  pub bits_value-to_bits_le : (a : F) → bits_value (to_bits_le a) ≡ into_bigint a
  pub into_bigint-le_bits_to_fp :
      (bs : List Bool) → into_bigint (le_bits_to_fp bs) ≡ bits_value bs % modulus
