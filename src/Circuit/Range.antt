-- ===== src/Circuit/Range.antt =====
-- The 8-bit range check of the circuit.
use native.Mathlib.Nat.{two-pow-succ, mod-eq_of_lt}
use dzta.Prelude.{
  ℕ, zero, suc, ◌+◌, ◌*◌, ◌%◌, ◌^◌, ◌<◌, ◌≡◌, ◌↔◌, Bool, true, false, List, [], ◌∷◌, take, drop,
  arith, sym, ap,
}
use dzta.Interfaces.PrimeField.{PrimeField, bits_value}

bits_value-take-drop :
    (n : ℕ) (bs : List Bool)
    → bits_value bs ≡ bits_value (take n bs) + 2 ^ n * bits_value (drop n bs)
bits_value-take-drop zero bs = omega arith
bits_value-take-drop (suc n) [] = omega arith
bits_value-take-drop (suc n) (true ∷ bs) = omega (
  arith,
  two-pow-succ n,
  bits_value-take-drop n bs,
  ap (λ (t : ℕ). t * bits_value (drop n bs)) (two-pow-succ n),
)
bits_value-take-drop (suc n) (false ∷ bs) = omega (
  arith,
  two-pow-succ n,
  bits_value-take-drop n bs,
  ap (λ (t : ℕ). t * bits_value (drop n bs)) (two-pow-succ n),
)

bits_value-take_lt : (n : ℕ) (bs : List Bool) → bits_value (take n bs) < 2 ^ n
bits_value-take_lt zero bs = omega arith
bits_value-take_lt (suc n) [] = omega (arith, two-pow-succ n, bits_value-take_lt n [])
bits_value-take_lt (suc n) (true ∷ bs) = omega (arith, two-pow-succ n, bits_value-take_lt n bs)
bits_value-take_lt (suc n) (false ∷ bs) = omega (arith, two-pow-succ n, bits_value-take_lt n bs)

bits_value-take_eight : (bs : List Bool) → bits_value (take 8 bs) ≡ bits_value bs % 256
bits_value-take_eight bs = omega (arith, bits_value-take-drop 8 bs, bits_value-take_lt 8 bs)

module _ {F : Type 0} (field : PrimeField F) where
  open field use {
    modulus, into_bigint, to_bits_le, le_bits_to_fp, into_bigint-lt, into_bigint_injective,
    bits_value-to_bits_le, into_bigint-le_bits_to_fp,
  }

  truncated : F → F
  truncated a = le_bits_to_fp (take 8 (to_bits_le a))

  into_bigint-truncated : (a : F) → into_bigint (truncated a) ≡ (into_bigint a % 256) % modulus
  unfolding truncated
  into_bigint-truncated a =
      rw (into_bigint-le_bits_to_fp, bits_value-take_eight, bits_value-to_bits_le)

  low_bits : (a : F) → into_bigint a < 256 → into_bigint (truncated a) ≡ into_bigint a
  low_bits a h =
      let small : into_bigint a % 256 ≡ into_bigint a = omega arith in
      rw (into_bigint-truncated, small, mod-eq_of_lt (into_bigint-lt a))

  -- A value equals its first eight bits exactly when it is below 256.
  pub range_check_iff :
      (a : F) → (a ≡ le_bits_to_fp (take 8 (to_bits_le a))) ↔ (into_bigint a < 256)
  unfolding truncated
  range_check_iff a = (
    λ e. omega (arith, ap into_bigint e, into_bigint-truncated a),
    λ h. into_bigint_injective a (truncated a) (sym (low_bits a h)),
  )
