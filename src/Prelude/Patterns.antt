-- ===== src/Prelude/Patterns.antt =====
-- The functions of `str` that look for a pattern, and the Display of the integer types.
use Prim.Native.Nat.{ℕ, zero, suc, ◌+◌, ◌-◌, ◌/◌, ◌%◌}
use mathlib.Core.Bool.{Bool, true, false, ◌||◌}
use mathlib.Core.List.{[], ◌∷◌, ◌++◌, reverse}
use dzta.Prelude.Tests.{ltb}
use dzta.Prelude.Lists.{length}
use dzta.Prelude.Texts.{Text, starts_with, drop_start}
use dzta.Prelude.Int.{ℤ, pos, negsuc}

-- `str::contains` of a text.
unfoldable pub contains_text : Text → Text → Bool
contains_text pattern_text [] = starts_with [] pattern_text
contains_text pattern_text (c ∷ s) =
    let rest = contains_text pattern_text s in starts_with (c ∷ s) pattern_text || rest

-- `str::trim_matches` of a byte.
unfoldable pub trim_matches : ℕ → Text → Text
unfolding drop_start
trim_matches x s = reverse (drop_start x (reverse (drop_start x s)))

-- The text without the occurrences of the pattern; the first number is how much of the last
-- occurrence is left to skip.
unfoldable pub remove_from : ℕ → Text → Text → Text
remove_from skip pattern_text [] = []
remove_from (suc skip) pattern_text (c ∷ s) = remove_from skip pattern_text s
remove_from zero pattern_text (c ∷ s) = elim (starts_with (c ∷ s) pattern_text) [
  | true ↦ remove_from (length pattern_text - 1) pattern_text s
  | false ↦ c ∷ remove_from zero pattern_text s
]

-- `str::replace(pattern, "")` for a pattern that is not empty.
unfoldable pub remove_all : Text → Text → Text
unfolding remove_from
remove_all pattern_text s = remove_from zero pattern_text s

-- The digits of a number below 10 ^ fuel. Twenty are enough for 64 bits.
unfoldable pub digits : ℕ → ℕ → Text
digits zero n = []
digits (suc fuel) n = elim (ltb n 10) [
  | true ↦ (48 + n) ∷ []
  | false ↦ digits fuel (n / 10) ++ (48 + n % 10) ∷ []
]

-- `i64::to_string`
unfoldable pub i64_to_string : ℤ → Text
unfolding digits
i64_to_string (pos n) = digits 20 n
i64_to_string (negsuc n) = b'-' ∷ digits 20 (suc n)
