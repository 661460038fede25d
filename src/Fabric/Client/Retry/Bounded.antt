-- ===== src/Fabric/Client/Retry/Bounded.antt =====
-- How get_endorsements_with_retry fails: not before all its attempts and the pauses between them.
use native.Mathlib.Nat.{pow-le-pow_right, two-pow-succ, mod-eq_of_lt}
use dzta.Prelude.{
  ℕ, zero, suc, ◌+◌, ◌-◌, ◌*◌, ◌%◌, ◌^◌, ◌<◌, ◌≤◌, ◌≡◌, ap, sym, ◌∙◌, Result-cases, inl, inr, false,
  arith, Text, err, utf8, ◌++◌,
}
use dzta.Errors.{WalletError, chaincode_failed}
use dzta.Interfaces.Host.{Clock, ClockLaws}
use dzta.Interfaces.FabricSdk.{FabricSdk}
use dzta.Fabric.Client.{FabricClient}
use dzta.Fabric.Client.Retry.{backoff_ms, retry_loop, get_endorsements_with_retry}

backoff_ms-exact : (n : ℕ) → n ≤ 57 → backoff_ms n ≡ 100 * 2 ^ n
backoff_ms-exact n h =
    let small : 2 ^ n ≤ 2 ^ 57 = pow-le-pow_right (omega arith) h in
    let fits : 2 ^ n % 2 ^ 64 ≡ 2 ^ n = mod-eq_of_lt (omega arith) in
    rw fits (mod-eq_of_lt (omega arith))

two_pow_positive : (n : ℕ) → 0 < 2 ^ n
two_pow_positive zero = omega arith
two_pow_positive (suc n) = omega (arith, two_pow_positive n, two-pow-succ n)

-- An attempt does not turn the monotonic clock back.
pub record AttemptLaws {World : Type 0} (clock : Clock World) (sdk : FabricSdk World) : Type 0 where
  pub instant-endorse_request :
      (gateway : sdk.Gateway) (request : sdk.EndorseRequest) (world : World)
      → clock.instant world ≤ clock.instant (sdk.endorse_request gateway request world).1

module _ {World : Type 0} (clock : Clock World) (clocks : ClockLaws clock) (sdk : FabricSdk World)
    (attempts : AttemptLaws clock sdk) (gateway : sdk.Gateway) (request : sdk.EndorseRequest) where
  -- The failure carries what the gateway answered to an attempt, and came after the pauses.
  pub record Exhausted (pauses : ℕ) (error : WalletError) (world last : World) : Type 0 where
    pub message : Text
    pub asked : World
    pub refused : sdk.endorse_request gateway request asked ≡ (err message, last)
    pub names :
        error
        ≡ chaincode_failed (utf8 "Max endorsement retries exhausted. Gateway Error: " ++ message)
    pub waited : clock.instant world + pauses ≤ clock.instant last

  retry_loop-Exhausted :
      (left retries pauses : ℕ) (world last : World) (error : WalletError)
      → retries + left ≤ 57
      → pauses + 100000000 * 2 ^ retries ≤ 100000000 * 2 ^ (retries + left)
      → retry_loop clock sdk (suc left) retries gateway request world ≡ (err error, last)
      → Exhausted pauses error world last
  unfolding retry_loop
  retry_loop-Exhausted zero retries pauses world last error few short h =
      let none_left : retries + 0 ≡ retries = omega arith in
      let same : 2 ^ (retries + 0) ≡ 2 ^ retries = ap (λ k. 2 ^ k) none_left in
      elim (Result-cases (sdk.endorse_request gateway request world).0) [
        | inl (response, e) ↦ absurd (let f = rw (retry_loop, e) at h in cc (f))
        | inr (message, e) ↦
            let f = rw (retry_loop, e) at h in
            let ends = ap (λ r. r.1) f in
            record {
              message = message;
              asked = world;
              refused = λ i. (e i, ends i);
              names = cc (f);
              waited = rw (← ends) (
                  omega
                    (arith, short, same, attempts.instant-endorse_request gateway request world));
            }
      ]
  retry_loop-Exhausted (suc left) retries pauses world last error few short h =
      elim (Result-cases (sdk.endorse_request gateway request world).0) [
        | inl (response, e) ↦ absurd (let f = rw (retry_loop, e) at h in cc (f))
        | inr (message, e) ↦
            let after = (sdk.endorse_request gateway request world).1 in
            let again = clock.sleep (backoff_ms retries) after in
            let index : suc retries + left ≡ retries + suc left = omega arith in
            let same : 2 ^ (suc retries + left) ≡ 2 ^ (retries + suc left) =
              ap (λ k. 2 ^ k) index in
            let growth : 2 ^ suc retries ≤ 2 ^ (suc retries + left) =
              pow-le-pow_right (omega arith) (omega arith) in
            let rest =
              retry_loop-Exhausted left (suc retries) (pauses - 100000000 * 2 ^ retries) again last
                error (omega arith) (omega (arith, short, same, growth, two-pow-succ retries))
                (rw (retry_loop, e) at h) in
            record {
              message = rest.message;
              asked = rest.asked;
              refused = rest.refused;
              names = rest.names;
              waited = omega (
                arith,
                rest.waited,
                attempts.instant-endorse_request gateway request world,
                clocks.instant-sleep (backoff_ms retries) after,
                backoff_ms-exact retries (omega arith),
              );
            }
      ]

  -- With at most 58 attempts, a failure carries the gateway's answer to the last attempt, and the pauses
  -- before it have grown as the back-off tells: they took 100 * (2 ^ (max_retries - 1) - 1) milliseconds
  -- at least.
  pub get_endorsements_with_retry-Exhausted :
      (client : FabricClient) (max_retries : ℕ) (world last : World) (error : WalletError)
      → 0 < max_retries
      → max_retries ≤ 58
      → client.is_mock ≡ false
      → get_endorsements_with_retry clock sdk client gateway request max_retries world
        ≡ (err error, last)
      → Exhausted (100000000 * (2 ^ (max_retries - 1) - 1)) error world last
  unfolding get_endorsements_with_retry
  get_endorsements_with_retry-Exhausted client zero world last error some_attempt few live h =
      absurd (omega arith)
  get_endorsements_with_retry-Exhausted client (suc left) world last error some_attempt few live h =
      let index : suc left - 1 ≡ left = omega arith in
      let start : 0 + left ≡ left = omega arith in
      let same : 2 ^ (0 + left) ≡ 2 ^ (suc left - 1) = ap (λ k. 2 ^ k) (start ∙ sym index) in
      let positive = two_pow_positive (suc left - 1) in
      retry_loop-Exhausted left 0 _ world last error (omega arith)
        (omega (arith, same, start, index, positive)) (rw live at h)
