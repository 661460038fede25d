-- ===== src/Daemon/Backoff.antt =====
-- The waits between two connections to the event stream.
use native.Mathlib.Nat.{two-pow-succ, one-le-pow}
use dzta.Prelude.{
  ℕ, zero, suc, ◌*◌, ◌^◌, ◌≤◌, ◌<◌, min, ◌≡◌, Text, Result, ok, err, List, [], ◌∷◌, All, arith, ap,
  ◌∙◌, Bool-cases, ltb, inl, inr,
}
use dzta.Daemon.{run_turns}

abbrev pub InRange : ℕ → Type 0
InRange n = (1 ≤ n) × (n ≤ 30)

-- From a back-off between 1 and 30 seconds every sleep, and the last back-off, is between 1 and 30
-- seconds, whatever the outcomes of the streams.
pub run_turns-InRange :
    (outcomes : List (Result Text (Unit {0}))) (retry_backoff : ℕ)
    → InRange retry_backoff
    → InRange (run_turns outcomes retry_backoff).0
      × All InRange (run_turns outcomes retry_backoff).1
unfolding run_turns
run_turns-InRange [] b h = (h, tt)
run_turns-InRange (ok _ ∷ outcomes) b h = run_turns-InRange outcomes 1 (omega arith)
run_turns-InRange (err e ∷ outcomes) b h =
    let rest = run_turns-InRange outcomes (min (b * 2) 30) (omega arith) in (rest.0, (h, rest.1))

abbrev pub failures : ℕ → Text → List (Result Text (Unit {0}))
failures zero e = []
failures (suc n) e = err e ∷ failures n e

capped_below : (n b : ℕ) → b * 2 ≤ 30 → min (min (b * 2) 30 * 2 ^ n) 30 ≡ min (b * 2 ^ suc n) 30
capped_below n b h =
    let same : min (b * 2) 30 ≡ b * 2 = omega arith in
    rw same (omega (arith, ap (λ (t : ℕ). b * t) (two-pow-succ n)))

capped_above : (n b : ℕ) → 30 < b * 2 → min (min (b * 2) 30 * 2 ^ n) 30 ≡ min (b * 2 ^ suc n) 30
capped_above n b h =
    let same : min (b * 2) 30 ≡ 30 = omega arith in
    let power : 1 ≤ 2 ^ n = one-le-pow n 2 (omega arith) in
    let wide : 30 ≤ b * 2 * 2 ^ n = grind arith in
    rw same (omega (arith, ap (λ (t : ℕ). b * t) (two-pow-succ n)))

capped : (n b : ℕ) → min (min (b * 2) 30 * 2 ^ n) 30 ≡ min (b * 2 ^ suc n) 30
capped n b = elim (Bool-cases (ltb 30 (b * 2))) [
  | inl above ↦ capped_above n b (ground arith)
  | inr below ↦ capped_below n b (ground arith)
]

-- After n failures in a row the back-off has doubled n times, capped at 30.
run_turns-failures_from :
    (n : ℕ) (e : Text) (b : ℕ) → b ≤ 30 → (run_turns (failures n e) b).0 ≡ min (b * 2 ^ n) 30
unfolding run_turns
run_turns-failures_from zero e b h = omega arith
run_turns-failures_from (suc n) e b h =
    run_turns-failures_from n e (min (b * 2) 30) (omega arith) ∙ capped n b

-- A stream that ends without an error resets the back-off: n failures after it, the daemon waits the
-- smaller of 2 ^ n and 30 seconds.
pub run_turns-failures :
    (n : ℕ) (e : Text) (b : ℕ) → (run_turns (ok tt ∷ failures n e) b).0 ≡ min (2 ^ n) 30
unfolding run_turns
run_turns-failures n e b = run_turns-failures_from n e 1 (omega arith) ∙ (omega arith)
