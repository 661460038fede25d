-- ===== src/Circuit/Synthesis.antt =====
-- What synthesis leaves in the constraint system, and when it fails.
use dzta.Prelude.{◌≡◌, ◌↔◌, ◌⊎◌, refl, true, none, some, ok, err, [], ◌∷◌, arith, take, ap}
use dzta.Interfaces.PrimeField.{PrimeField}
use dzta.Interfaces.ConstraintSystem.{ConstraintSystem, assignment_missing}
use dzta.Circuit.{RoleVerificationCircuit, generate_constraints, check_satisfied}

-- Some slot has no value.
abbrev pub IsUnassigned : {F : Type 0} → RoleVerificationCircuit F → Type 0
IsUnassigned c =
    (c.user_clearance_level ≡ none)
    ⊎ (c.user_role_scalar ≡ none)
    ⊎ (c.secret_nullifier ≡ none)
    ⊎ (c.required_clearance_level ≡ none)
    ⊎ (c.public_commitment ≡ none)

abbrev pub assigned : {F : Type 0} → F → F → F → F → F → RoleVerificationCircuit F
assigned clearance role nullifier required commitment = record {
  user_clearance_level = some clearance;
  user_role_scalar = some role;
  secret_nullifier = some nullifier;
  required_clearance_level = some required;
  public_commitment = some commitment;
}

module _ {F System : Type 0} (field : PrimeField F) (system : ConstraintSystem F System) where
  open field use {sub, mul, to_bits_le, le_bits_to_fp}
  open system use {
    new_ref, new_witness, new_input, enforce_equal, is_satisfied, inputs, witnesses,
    is_satisfied-new_ref, is_satisfied-new_witness, is_satisfied-new_input,
    is_satisfied-enforce_equal, inputs-new_ref, inputs-new_witness, inputs-new_input,
    inputs-enforce_equal, witnesses-new_ref, witnesses-new_witness, witnesses-new_input,
    witnesses-enforce_equal,
  }

  -- Synthesis fails exactly when a slot has no value, and its only error is `assignment_missing`.
  pub generate_constraints-eq-err_iff :
      (c : RoleVerificationCircuit F) (cs : System)
      → (generate_constraints field system c cs ≡ err assignment_missing) ↔ IsUnassigned c
  unfolding generate_constraints
  generate_constraints-eq-err_iff c cs = ground arith

  -- The variables of an assigned circuit, before its constraints.
  allocated : F → F → F → F → F → System
  allocated c r n q k =
      new_input k (new_input q (new_witness n (new_witness r (new_witness c new_ref))))

  constrained : F → F → F → F → F → System
  unfolding allocated
  constrained c r n q k = enforce_equal (mul (mul n c) r) k (
      enforce_equal (sub c q) (le_bits_to_fp (take 8 (to_bits_le (sub c q)))) (allocated c r n q k))

  is_satisfied-allocated : (c r n q k : F) → is_satisfied (allocated c r n q k) ≡ true
  unfolding allocated
  is_satisfied-allocated c r n q k =
      simp (is_satisfied-new_input, is_satisfied-new_witness, is_satisfied-new_ref)

  inputs-constrained : (c r n q k : F) → inputs (constrained c r n q k) ≡ q ∷ k ∷ []
  unfolding constrained
  inputs-constrained c r n q k =
      simp (inputs-enforce_equal, inputs-new_input, inputs-new_witness, inputs-new_ref)

  witnesses-constrained : (c r n q k : F) → witnesses (constrained c r n q k) ≡ c ∷ r ∷ n ∷ []
  unfolding constrained
  witnesses-constrained c r n q k =
      simp (witnesses-enforce_equal, witnesses-new_input, witnesses-new_witness, witnesses-new_ref)

  generate_constraints-assigned :
      (c r n q k : F)
      → generate_constraints field system (assigned c r n q k) new_ref ≡ ok (constrained c r n q k)
  unfolding generate_constraints constrained
  generate_constraints-assigned c r n q k = refl

  -- The public inputs are the required clearance and the commitment, in this order, which is the
  -- order in which the provers serialise them; the private witnesses are the other three, and
  -- synthesis on a fresh system succeeds.
  pub inputs-generate_constraints :
      (c r n q k : F)
      → (cs : System) × (generate_constraints field system (assigned c r n q k) new_ref ≡ ok cs)
        × (inputs cs ≡ q ∷ k ∷ [])
        × (witnesses cs ≡ c ∷ r ∷ n ∷ [])
  inputs-generate_constraints c r n q k = (
    constrained c r n q k,
    generate_constraints-assigned c r n q k,
    inputs-constrained c r n q k,
    witnesses-constrained c r n q k,
  )

  is_satisfied-constrained :
      (c r n q k : F)
      → (is_satisfied (constrained c r n q k) ≡ true)
        ↔ ((sub c q ≡ le_bits_to_fp (take 8 (to_bits_le (sub c q)))) × (mul (mul n c) r ≡ k))
  unfolding constrained
  is_satisfied-constrained c r n q k =
      let range =
        is_satisfied-enforce_equal (sub c q) (le_bits_to_fp (take 8 (to_bits_le (sub c q))))
          (allocated c r n q k) in
      let product = is_satisfied-enforce_equal (mul (mul n c) r) k (
        enforce_equal (sub c q) (le_bits_to_fp (take 8 (to_bits_le (sub c q))))
          (allocated c r n q k)) in
      (
        λ h. ((range.0 (product.0 h).0).1, (product.0 h).1),
        λ h. product.1 (range.1 (is_satisfied-allocated c r n q k, h.0), h.1),
      )

  pub check_satisfied-assigned :
      (c r n q k : F)
      → (check_satisfied field system (assigned c r n q k) ≡ ok true)
        ↔ ((sub c q ≡ le_bits_to_fp (take 8 (to_bits_le (sub c q)))) × (mul (mul n c) r ≡ k))
  unfolding check_satisfied constrained
  check_satisfied-assigned c r n q k =
      let both = is_satisfied-constrained c r n q k in (λ h. both.0 (cc), λ h. ap ok (both.1 h))

  -- A satisfied check leaves a satisfied system with the two public inputs.
  pub check_satisfied-synthesised :
      (c r n q k : F)
      → check_satisfied field system (assigned c r n q k) ≡ ok true
      → (cs : System) × (generate_constraints field system (assigned c r n q k) new_ref ≡ ok cs)
        × (is_satisfied cs ≡ true)
        × (inputs cs ≡ q ∷ k ∷ [])
  unfolding check_satisfied constrained
  check_satisfied-synthesised c r n q k h = (
    constrained c r n q k,
    generate_constraints-assigned c r n q k,
    (is_satisfied-constrained c r n q k).1 ((check_satisfied-assigned c r n q k).0 h),
    inputs-constrained c r n q k,
  )
