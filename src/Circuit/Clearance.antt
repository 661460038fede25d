-- ===== src/Circuit/Clearance.antt =====
-- Which clearances the circuit accepts.
use native.Mathlib.Nat.{mod-eq_of_lt, add-mod_right}
use dzta.Prelude.{
  ℕ, ◌+◌, ◌-◌, ◌%◌, ◌^◌, ◌<◌, ◌≤◌, ◌≡◌, ◌↔◌, true, ok, arith, Bool-cases, ltb, inl, inr,
}
use dzta.Interfaces.PrimeField.{PrimeField}
use dzta.Interfaces.ConstraintSystem.{ConstraintSystem}
use dzta.Circuit.{check_satisfied}
use dzta.Circuit.Range.{range_check_iff}
use dzta.Circuit.Synthesis.{assigned, check_satisfied-assigned}

ordered_difference : (m a b : ℕ) → a < 2 ^ 64 → 2 ^ 65 ≤ m → b ≤ a → (a + m - b) % m ≡ a - b
ordered_difference m a b ha hm h =
    let e : a + m - b ≡ (a - b) + m = omega arith in
    rw (e, add-mod_right, mod-eq_of_lt {n = a - b} {m = m} (omega arith))

wrapped_difference : (m a b : ℕ) → b < 2 ^ 64 → 2 ^ 65 ≤ m → a < b → (a + m - b) % m ≡ a + m - b
wrapped_difference m a b hb hm h = mod-eq_of_lt (omega arith)

difference_iff :
    (m a b : ℕ)
    → a < 2 ^ 64
    → b < 2 ^ 64
    → 2 ^ 65 ≤ m
    → ((a + m - b) % m < 256) ↔ ((b ≤ a) × (a ≤ b + 255))
difference_iff m a b ha hb hm = elim (Bool-cases (ltb a b)) [
  | inl wraps ↦
      let below : a < b = ground arith in
      (λ h. absurd (omega (arith, wrapped_difference m a b hb hm below)), λ h. absurd (omega arith))
  | inr stays ↦
      let above : b ≤ a = ground arith in
      (
        λ h. (above, omega (arith, ordered_difference m a b ha hm above)),
        λ h. omega (arith, ordered_difference m a b ha hm above),
      )
]

module _ {F System : Type 0} (field : PrimeField F) (system : ConstraintSystem F System) where
  open field use {modulus, into_bigint, from_u64, sub, mul, into_bigint-from_u64, into_bigint-sub}

  -- Over any values the circuit accepts exactly when the difference of the clearances, modulo the
  -- field's prime, is below 256, and the commitment is nullifier * clearance * role.
  pub check_satisfied_iff :
      (c r n q k : F)
      → (check_satisfied field system (assigned c r n q k) ≡ ok true)
        ↔ (((into_bigint c + modulus - into_bigint q) % modulus < 256) × (mul (mul n c) r ≡ k))
  check_satisfied_iff c r n q k =
      let both = check_satisfied-assigned field system c r n q k in
      let range = range_check_iff field (sub c q) in
      rw (← into_bigint-sub)
        (λ h. (range.0 (both.0 h).0, (both.0 h).1), λ h. both.1 (range.1 h.0, h.1))

  module _ (large : 2 ^ 65 ≤ modulus) where
    into_bigint-level : (a : ℕ) → a < 2 ^ 64 → into_bigint (from_u64 a) ≡ a
    into_bigint-level a h = rw into_bigint-from_u64 (mod-eq_of_lt (omega arith))

    -- At two 64-bit levels, in a field whose prime has more than 65 bits, the circuit accepts exactly
    -- when the required level is met by at most 255 and the commitment is the product.
    pub check_satisfied-levels_iff :
        (a b : ℕ) (r n k : F)
        → a < 2 ^ 64
        → b < 2 ^ 64
        → (check_satisfied field system (assigned (from_u64 a) r n (from_u64 b) k) ≡ ok true)
          ↔ ((b ≤ a) × (a ≤ b + 255) × (mul (mul n (from_u64 a)) r ≡ k))
    check_satisfied-levels_iff a b r n k ha hb =
        let values = check_satisfied_iff (from_u64 a) r n (from_u64 b) k in
        let levels = difference_iff modulus a b ha hb large in
        let small =
          λ (h : (into_bigint (from_u64 a) + modulus - into_bigint (from_u64 b)) % modulus < 256).
            levels.0 (rw (into_bigint-level a ha, into_bigint-level b hb) at h) in
        (
          λ h. ((small (values.0 h).0).0, (small (values.0 h).0).1, (values.0 h).1),
          λ h.
              values.1
                (rw (into_bigint-level a ha, into_bigint-level b hb) (levels.1 (h.0, h.1)), h.2),
        )
