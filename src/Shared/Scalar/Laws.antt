-- ===== src/Shared/Scalar/Laws.antt =====
-- Scalars are decimal numbers, so that every later parse of one succeeds; nullifiers; commitments.
use native.Mathlib.Nat.{mod-eq_of_lt, mod-lt}
use dzta.Prelude.{
  length, is_empty-eq-nil, ok-injective, ℕ, ◌%◌, ◌<◌, ◌≡◌, refl, sym, ◌∙◌, inl, inr, Text, ok, err,
  is_empty, utf8, false, Bool-cases, Result-cases, [], ◌∷◌, arith,
}
use dzta.Interfaces.PrimeField.{PrimeField}
use dzta.Interfaces.Crypto.{Sha256, BigUint}
use dzta.Shared.Scalar.{string_to_scalar, scalar_field_prime, derive_nullifier, compute_commitment}

module _ (sha : Sha256) (big : BigUint) where
  open sha use {digest}
  open big use {
    from_str_radix, to_str_radix, from_bytes_be, from_str_radix-to_str_radix, from_str_radix-nil,
    to_str_radix-zero,
  }

  parse_zero : from_str_radix (utf8 "0") ≡ ok 0
  parse_zero = rw (← to_str_radix-zero) (from_str_radix-to_str_radix 0)

  -- The number of a scalar: the input's own, if it is a decimal number, 0 for the empty input, and
  -- else its digest modulo the prime.
  pub from_str_radix-string_to_scalar :
      (input : Text) → ((n : ℕ) × (from_str_radix (string_to_scalar sha big input) ≡ ok n))
  unfolding string_to_scalar
  from_str_radix-string_to_scalar [] = (0, parse_zero)
  from_str_radix-string_to_scalar (c ∷ s) = elim (Result-cases (from_str_radix (c ∷ s))) [
    | inl (n, parsed) ↦ (n, rw parsed parsed)
    | inr (e, refused) ↦ (
      from_bytes_be (digest (c ∷ s)) % scalar_field_prime,
      rw refused
          (from_str_radix-to_str_radix (from_bytes_be (digest (c ∷ s)) % scalar_field_prime)),
    )
  ]

  string_to_scalar-decimal :
      (s : Text) {n : ℕ}
      → from_str_radix s ≡ ok n
      → is_empty s ≡ false
      → string_to_scalar sha big s ≡ s
  unfolding string_to_scalar
  string_to_scalar-decimal s h e = ground arith

  to_str_radix-nonempty : (n : ℕ) → is_empty (to_str_radix n) ≡ false
  to_str_radix-nonempty n = elim (Bool-cases (is_empty (to_str_radix n))) [
    | inl e ↦ absurd (
        from_str_radix-nil n
          (rw (← is_empty-eq-nil (to_str_radix n) e) (from_str_radix-to_str_radix n)))
    | inr e ↦ e
  ]

  string_to_scalar-nonempty : (input : Text) → is_empty (string_to_scalar sha big input) ≡ false
  unfolding string_to_scalar utf8
  string_to_scalar-nonempty [] = refl
  string_to_scalar-nonempty (c ∷ s) =
      ground (arith, to_str_radix-nonempty (from_bytes_be (digest (c ∷ s)) % scalar_field_prime))

  -- Normalising twice is normalising once. The commitment is computed from the raw role, and the
  -- prover's role from the normalised one.
  pub string_to_scalar_idem :
      (input : Text)
      → string_to_scalar sha big (string_to_scalar sha big input) ≡ string_to_scalar sha big input
  string_to_scalar_idem input =
      let (n, parsed) = from_str_radix-string_to_scalar input in
      string_to_scalar-decimal (string_to_scalar sha big input) parsed
        (string_to_scalar-nonempty input)

  -- The number of a scalar is below the prime unless the input is itself a decimal number.
  pub string_to_scalar_bounds :
      (input e : Text) (n : ℕ)
      → from_str_radix input ≡ err e
      → from_str_radix (string_to_scalar sha big input) ≡ ok n
      → n < scalar_field_prime
  unfolding string_to_scalar
  string_to_scalar_bounds [] e n refused parsed = ground (arith, parse_zero)
  string_to_scalar_bounds (c ∷ s) e n refused parsed =
      let m : ℕ = from_bytes_be (digest (c ∷ s)) % scalar_field_prime in
      let known : from_str_radix (to_str_radix m) ≡ ok n = rw refused at parsed in
      let same : m ≡ n = ok-injective (sym (from_str_radix-to_str_radix m) ∙ known) in
      rw (← same) (mod-lt (from_bytes_be (digest (c ∷ s))) (omega arith))

module _ {F : Type 0} (sha : Sha256) (big : BigUint) (field : PrimeField F) where
  open big use {from_str_radix, to_bytes_le}
  open field use {
    into_bigint, from_u64, from_le_bytes_mod_order, mul, into_bigint_injective,
    into_bigint-from_le_bytes, bytes_value-to_bytes_le, into_bigint-lt,
  }

  -- Reading the bytes of an element gives the element back.
  from_le_bytes-to_bytes_le : (a : F) → from_le_bytes_mod_order (field.to_bytes_le a) ≡ a
  from_le_bytes-to_bytes_le a =
      into_bigint_injective _ a
        (rw (into_bigint-from_le_bytes, bytes_value-to_bytes_le, mod-eq_of_lt (into_bigint-lt a)))

  -- The commitment's bytes read back as nullifier * clearance * role, where the role is the number of
  -- the normalised role string.
  pub compute_commitment_product :
      (nullifier role : Text) (clearance n : ℕ)
      → from_str_radix (string_to_scalar sha big role) ≡ ok n
      → from_le_bytes_mod_order (compute_commitment sha big field nullifier clearance role)
        ≡ mul
            (mul (from_le_bytes_mod_order nullifier) (from_u64 clearance))
            (from_le_bytes_mod_order (to_bytes_le n))
  unfolding compute_commitment
  compute_commitment_product nullifier role clearance n parsed =
      rw (compute_commitment, parsed) (from_le_bytes-to_bytes_le _)

pub length-derive_nullifier :
    (sha : Sha256) (did credential_id seed : Text)
    → length (derive_nullifier sha did credential_id seed) ≡ 32
unfolding derive_nullifier
length-derive_nullifier sha did credential_id seed = sha.length-digest _
