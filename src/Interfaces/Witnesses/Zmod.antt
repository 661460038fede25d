-- ===== src/Interfaces/Witnesses/Zmod.antt =====
-- The integers modulo a prime as a `PrimeField`, at the prime of the scalar field of BLS12-381.
use mathlib.Core.HLevel.{Σ_prop_path}
use native.Mathlib.Bridge.{le_prop}
use native.Mathlib.Nat.{mod-lt, two-pow-succ, pow-suc}
use dzta.Prelude.{
  ℕ, zero, suc, ◌+◌, ◌-◌, ◌*◌, ◌/◌, ◌%◌, ◌^◌, ◌<◌, ◌≡◌, refl, Bool, List, [], ◌∷◌, arith, ◌==◌,
}
use dzta.Interfaces.PrimeField.{PrimeField, bits_value, bytes_value}

pub bits_of : ℕ → ℕ → List Bool
bits_of zero n = []
bits_of (suc k) n = (n % 2 == 1) ∷ bits_of k (n / 2)

pub bits_value-bits_of : (k n : ℕ) → n < 2 ^ k → bits_value (bits_of k n) ≡ n
unfolding bits_of
bits_value-bits_of zero n h = omega arith
bits_value-bits_of (suc k) n h =
    let half : n / 2 < 2 ^ k = omega (arith, two-pow-succ k) in
    ground (arith, bits_value-bits_of k (n / 2) half)

pub bytes_of : ℕ → ℕ → List ℕ
bytes_of zero n = []
bytes_of (suc k) n = (n % 256) ∷ bytes_of k (n / 256)

pub bytes_value-bytes_of : (k n : ℕ) → n < 256 ^ k → bytes_value (bytes_of k n) ≡ n
unfolding bytes_of
bytes_value-bytes_of zero n h = omega arith
bytes_value-bytes_of (suc k) n h =
    let part : n / 256 < 256 ^ k = omega (arith, pow-suc 256 k) in
    omega (arith, bytes_value-bytes_of k (n / 256) part)

-- BLS12_381_SCALAR_FIELD_PRIME
abbrev pub scalar_prime : ℕ
scalar_prime = 52435875175126190479447740508185965837690552500527637822603658699938581184513

abbrev pub Fr : Type 0
Fr = (n : ℕ) × (n < scalar_prime)

abbrev pub reduce : ℕ → Fr
reduce n = (n % scalar_prime, mod-lt n (omega arith))

pub in_bits : (a : Fr) → a.0 < 2 ^ 256
in_bits a = omega (arith, a.1)

pub in_bytes : (a : Fr) → a.0 < 256 ^ 32
in_bytes a = omega (arith, a.1)

abbrev pub fr : PrimeField Fr
fr = record {
  modulus = scalar_prime;
  from_u64 = reduce;
  from_le_bytes_mod_order = λ bs. reduce (bytes_value bs);
  into_bigint = λ a. a.0;
  to_bytes_le = λ a. bytes_of 32 a.0;
  sub = λ a b. reduce (a.0 + scalar_prime - b.0);
  mul = λ a b. reduce (a.0 * b.0);
  to_bits_le = λ a. bits_of 256 a.0;
  le_bits_to_fp = λ bs. reduce (bits_value bs);
  into_bigint-lt = λ a. a.1;
  into_bigint_injective = λ a b p. Σ_prop_path (λ n. le_prop) p;
  into_bigint-from_u64 = λ n. refl;
  into_bigint-from_le_bytes = λ bs. refl;
  bytes_value-to_bytes_le = λ a. bytes_value-bytes_of 32 a.0 (in_bytes a);
  into_bigint-sub = λ a b. refl;
  into_bigint-mul = λ a b. refl;
  bits_value-to_bits_le = λ a. bits_value-bits_of 256 a.0 (in_bits a);
  into_bigint-le_bits_to_fp = λ bs. refl;
}
