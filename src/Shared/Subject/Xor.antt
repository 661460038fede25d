-- ===== src/Shared/Subject/Xor.antt =====
-- XOR with a cycled key undoes itself.
use Prim.Native.Nat.{bit_xor}
use dzta.Prelude.{
  ℕ, zero, suc, ◌<◌, ◌≡◌, refl, Bool, true, ◌&&◌, [], ◌∷◌, Text, arith, ◌==◌, ==_iff, All,
}
use dzta.Shared.Subject.{xor_from, xor_cycle}

abbrev pub IsByte : ℕ → Type 0
IsByte b = b < 256

-- A test at all numbers below a bound.
holds_below : (ℕ → Bool) → ℕ → Bool
holds_below test zero = true
holds_below test (suc bound) = holds_below test bound && test bound

test_of_holds_below :
    (test : ℕ → Bool) (bound number : ℕ)
    → number < bound
    → holds_below test bound ≡ true
    → test number ≡ true
unfolding holds_below
test_of_holds_below test zero number below holds = absurd (omega arith)
test_of_holds_below test (suc bound) number below holds =
    ground (arith, test_of_holds_below test bound number)

abbrev undone : ℕ → ℕ → Bool
undone k c = bit_xor (bit_xor c k) k == c

abbrev undone_row : ℕ → Bool
undone_row k = holds_below (undone k) 256

-- Over all pairs of bytes.
xor_table : holds_below undone_row 256 ≡ true
unfolding holds_below
xor_table = refl

bit_xor_twice : (c k : ℕ) → IsByte c → IsByte k → bit_xor (bit_xor c k) k ≡ c
bit_xor_twice c k hc hk =
    let row : undone_row k ≡ true = test_of_holds_below undone_row 256 k hk xor_table in
    (==_iff _ c).0 (test_of_holds_below (undone k) 256 c hc row)

-- At every place of the cycle.
xor_from_twice :
    (k : ℕ) (ks rest s : Text)
    → IsByte k
    → All IsByte ks
    → All IsByte rest
    → All IsByte s
    → xor_from (k ∷ ks) rest (xor_from (k ∷ ks) rest s) ≡ s
unfolding xor_from
xor_from_twice k ks [] [] hk hks hr hs = refl
xor_from_twice k ks (r ∷ rest) [] hk hks hr hs = refl
xor_from_twice k ks [] (c ∷ s) hk hks hr hs =
    rw (bit_xor_twice c k hs.0 hk, xor_from_twice k ks ks s hk hks hks hs.1)
xor_from_twice k ks (r ∷ rest) (c ∷ s) hk hks hr hs =
    rw (bit_xor_twice c r hs.0 hr.0, xor_from_twice k ks rest s hk hks hr.1 hs.1)

-- A record that was sealed by XOR with a key that is not empty is restored by the same key.
pub xor_cycle_twice :
    (k : ℕ) (ks s : Text)
    → IsByte k
    → All IsByte ks
    → All IsByte s
    → xor_cycle (xor_cycle s (k ∷ ks)) (k ∷ ks) ≡ s
unfolding xor_cycle
xor_cycle_twice k ks s hk hks hs = xor_from_twice k ks (k ∷ ks) s hk hks (hk, hks) hs
