-- ===== src/Interfaces/Witnesses/Hashes.antt =====
-- A checksum as the digest, and big integers written as one character.
use dzta.Prelude.{
  ℕ, zero, suc, ◌+◌, ◌-◌, ◌*◌, ◌≡◌, ◌≢◌, refl, ap, Text, Result, ok, err, [], ◌∷◌, utf8, arith,
}
use dzta.Interfaces.Crypto.{Sha256, BigUint}

abbrev zeros : ℕ → Text
zeros zero = []
zeros (suc n) = 0 ∷ zeros n

abbrev total : Text → ℕ
total [] = 0
total (c ∷ s) = c + total s

abbrev pub checksum : Sha256
checksum = record { digest = λ s. total s ∷ zeros 31; length-digest = λ s. refl }

-- The numeral of `n` is the one character with the code of '0' plus `n`.
abbrev of_numeral : Text → Result Text ℕ
of_numeral [] = err (utf8 "empty")
of_numeral (c ∷ []) = ok (c - 48)
of_numeral (c ∷ d ∷ s) = err (utf8 "invalid digit")

pub of_numeral-nil : (n : ℕ) → of_numeral [] ≢ ok n
of_numeral-nil n h = cc (h)

pub of_numeral-numeral : (n : ℕ) → of_numeral ((48 + n) ∷ []) ≡ ok n
of_numeral-numeral n = let e : 48 + n - 48 ≡ n = omega arith in ap ok e

pub zero_numeral : (48 + 0) ∷ [] ≡ utf8 "0"
unfolding utf8
zero_numeral = refl

abbrev big_endian : ℕ → Text → ℕ
big_endian n [] = n
big_endian n (b ∷ bs) = big_endian (n * 256 + b) bs

abbrev pub one_character : BigUint
one_character = record {
  from_str_radix = of_numeral;
  to_str_radix = λ n. (48 + n) ∷ [];
  from_bytes_be = big_endian 0;
  to_bytes_le = λ n. n ∷ [];
  from_str_radix-to_str_radix = of_numeral-numeral;
  from_str_radix-nil = of_numeral-nil;
  to_str_radix-zero = zero_numeral;
  bytes_value-to_bytes_le = λ n. omega arith;
}
