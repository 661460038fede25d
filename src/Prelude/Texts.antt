-- ===== src/Prelude/Texts.antt =====
-- Rust strings as lists of UTF-8 bytes, with the functions of `str` that the sources call.
use Prim.Native.Nat.{ℕ}
use Prim.Native.Char.{code}
use Prim.Native.String.{String}
use mathlib.Core.Path.{◌≡◌, refl}
use mathlib.Core.Logic.{◌↔◌}
use mathlib.Core.Bool.{Bool, true, false, ◌&&◌, ◌||◌}
use mathlib.Core.List.{List, [], ◌∷◌, ◌++◌, reverse}
use native.Mathlib.Omega.{arith}
use dzta.Prelude.Tests.{◌==◌, leb, if◌then◌else◌}
use dzta.Prelude.Lists.{any}

abbrev pub Text : Type 0
Text = List ℕ

-- An ASCII literal. It is shut, so that a literal stays one word in goals.
unfoldable pub utf8 : String → Text
utf8 String.[] = []
utf8 (String.◌∷◌ c s) = code c ∷ utf8 s

abbrev pub text_eq : Text → Text → Bool
text_eq [] [] = true
text_eq [] (y ∷ ys) = false
text_eq (x ∷ xs) [] = false
text_eq (x ∷ xs) (y ∷ ys) = x == y && text_eq xs ys

pub text_eq_iff : (s t : Text) → (text_eq s t ≡ true) ↔ (s ≡ t)
text_eq_iff [] [] = ground arith
text_eq_iff [] (y ∷ ys) = ground arith
text_eq_iff (x ∷ xs) [] = ground arith
text_eq_iff (x ∷ xs) (y ∷ ys) = ground (arith, text_eq_iff xs ys)

pub text_eq_refl : (s : Text) → text_eq s s ≡ true
text_eq_refl s = (text_eq_iff s s).1 refl

pub ruleset text_rules = (arith, text_eq_iff)

-- `str::starts_with` and `str::ends_with`
abbrev pub starts_with : Text → Text → Bool
starts_with s [] = true
starts_with [] (p ∷ ps) = false
starts_with (x ∷ xs) (p ∷ ps) = x == p && starts_with xs ps

abbrev pub ends_with : Text → Text → Bool
ends_with s p = starts_with (reverse s) (reverse p)

pub starts_with-append : (p s : Text) → starts_with (p ++ s) p ≡ true
starts_with-append [] s = refl
starts_with-append (x ∷ p) s = ground (arith, starts_with-append p s)

abbrev pub contains_byte : ℕ → Text → Bool
contains_byte c s = any (λ x. x == c) s

pub contains_byte-append :
    (c : ℕ) (s t : Text)
    → contains_byte c s ≡ false
    → contains_byte c t ≡ false
    → contains_byte c (s ++ t) ≡ false
contains_byte-append c [] t h k = k
contains_byte-append c (x ∷ s) t h k = ground (arith, contains_byte-append c s t)

abbrev cons_head : ℕ → List Text → List Text
cons_head c [] = (c ∷ []) ∷ []
cons_head c (piece ∷ pieces) = (c ∷ piece) ∷ pieces

-- `str::split` at a byte: never empty, one piece more than separators.
unfoldable pub split : ℕ → Text → List Text
split sep [] = [] ∷ []
split sep (c ∷ s) = let rest = split sep s in if c == sep then [] ∷ rest else cons_head c rest

pub split_none : (sep : ℕ) (s : Text) → contains_byte sep s ≡ false → split sep s ≡ s ∷ []
unfolding split
split_none sep [] h = refl
split_none sep (c ∷ s) h = ground (arith, split_none sep s)

pub split-append :
    (sep : ℕ) (s t : Text)
    → contains_byte sep s ≡ false
    → split sep (s ++ sep ∷ t) ≡ s ∷ split sep t
unfolding split
split-append sep [] t h = ground arith
split-append sep (c ∷ s) t h = ground (arith, split-append sep s t)

-- `char::is_whitespace` on ASCII: tab to carriage return, and space.
abbrev is_whitespace : ℕ → Bool
is_whitespace c = (leb 9 c && leb c 13) || c == 32

unfoldable pub trim_start : Text → Text
trim_start [] = []
trim_start (c ∷ s) = let rest = trim_start s in if is_whitespace c then rest else c ∷ s

-- `str::trim`. Only emptiness, prefixes and suffixes of the result are used by the sources.
unfoldable pub trim : Text → Text
unfolding trim_start
trim s = reverse (trim_start (reverse (trim_start s)))

unfoldable pub drop_start : ℕ → Text → Text
drop_start x [] = []
drop_start x (c ∷ s) = let rest = drop_start x s in if c == x then rest else c ∷ s

-- `str::trim_end_matches` of a byte.
unfoldable pub trim_end_matches : ℕ → Text → Text
unfolding drop_start
trim_end_matches x s = reverse (drop_start x (reverse s))
