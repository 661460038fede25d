-- ===== src/Fabric/Client/Commit/Confirmed.antt =====
-- The wait for a commit returns, and what it accepts was confirmed.
use dzta.Prelude.{
  ℕ, zero, suc, ◌+◌, ◌-◌, ◌*◌, ◌<◌, ◌≤◌, ◌≡◌, refl, sym, ◌∙◌, Text, Result, ok, err, Option, none,
  some, true, false, ltb, Bool-cases, Option-cases, inl, inr, arith,
}
use dzta.Prelude.Int.{ℤ, pos, negsuc}
use dzta.Errors.{WalletResult}
use dzta.Interfaces.Host.{Clock, ClockLaws}
use dzta.Interfaces.FabricSdk.{FabricSdk, CommitStatus}
use dzta.Fabric.Client.{FabricClient}
use dzta.Fabric.Client.Commit.{
  second, expired, rejected, verdict, wait_loop, wait_for_transaction_commit,
}

-- Asking for the status does not turn the clock back.
pub record PollLaws {World : Type 0} (clock : Clock World) (sdk : FabricSdk World) : Type 0 where
  pub instant-commit_status :
      (sdk_client : sdk.Client) (tx_id channel : Text) (world : World)
      → clock.instant world ≤ clock.instant (sdk.commit_status sdk_client tx_id channel world).1

-- The peer answered with the validation code 0 for the transaction on the channel.
pub record Confirmed {World : Type 0} (sdk : FabricSdk World) (sdk_client : sdk.Client)
    (tx_id channel : Text) : Type 0 where
  pub before : World
  pub after : World
  pub status : CommitStatus
  pub answered : sdk.commit_status sdk_client tx_id channel before ≡ (ok status, after)
  pub valid : status.result ≡ pos 0

-- What an outcome of the wait tells.
abbrev pub Settles :
    {World : Type 0} (sdk : FabricSdk World)
    → sdk.Client
    → Text
    → Text
    → WalletResult (Unit {0})
    → Type 0
Settles sdk sdk_client tx_id channel (ok _) = Confirmed sdk sdk_client tx_id channel
Settles sdk sdk_client tx_id channel (err e) = Unit {0}

verdict-ok :
    (tx_id : Text) (answer : Result Text CommitStatus)
    → verdict tx_id answer ≡ some (ok tt)
    → (status : CommitStatus) × (answer ≡ ok status) × (status.result ≡ pos 0)
unfolding verdict
verdict-ok tx_id (err e) h = absurd (cc (h))
verdict-ok tx_id (ok status) h = (status, refl, zero_code status.result h)
  where
    zero_code :
        (r : ℤ)
        → ◌≡◌ {A = Option (WalletResult (Unit {0}))}
            (elim r [
              | pos n ↦ elim n [
                | zero ↦ some (ok tt)
                | suc k ↦ some (err (rejected tx_id (pos (suc k))))
              ]
              | negsuc n ↦ none
            ])
            (some (ok tt))
        → r ≡ pos 0
    zero_code (pos zero) e = refl
    zero_code (pos (suc k)) e = absurd (cc (e))
    zero_code (negsuc n) e = absurd (cc (e))

module _ {World : Type 0} (clock : Clock World) (sdk : FabricSdk World) (client : FabricClient)
    (sdk_client : sdk.Client) (tx_id : Text) (timeout_secs : ℕ) where
  abbrev poll : World → Result Text CommitStatus × World
  poll world = sdk.commit_status sdk_client tx_id client.channel_name world

  wait_loop_total :
      (laws : ClockLaws clock) (polls : PollLaws clock sdk) (fuel start : ℕ) (world : World)
      → start ≤ clock.instant world
      → start + timeout_secs * second < clock.instant world + fuel * 500000000
      → (outcome : WalletResult (Unit {0}) × World) × (wait_loop clock sdk client sdk_client tx_id
            timeout_secs
            (suc fuel)
            start
            world
          ≡ some outcome)
  unfolding wait_loop
  wait_loop_total laws polls zero start world begun enough =
      let late : ltb (timeout_secs * second) (clock.instant world - start) ≡ true = ground arith in
      ((err (expired tx_id timeout_secs), world), rw (wait_loop, late) refl)
  wait_loop_total laws polls (suc left) start world begun enough =
      elim (Bool-cases (ltb (timeout_secs * second) (clock.instant world - start))) [
        | inl late ↦ ((err (expired tx_id timeout_secs), world), rw (wait_loop, late) refl)
        | inr early ↦ elim (Option-cases (verdict tx_id (poll world).0)) [
          | inr (outcome, decided) ↦
              ((outcome, (poll world).1), rw (wait_loop, early, decided) refl)
          | inl undecided ↦
              let slept = laws.instant-sleep 500 (poll world).1 in
              let polled = polls.instant-commit_status sdk_client tx_id client.channel_name world in
              let (outcome, ends) =
                wait_loop_total laws polls left start (clock.sleep 500 (poll world).1) (omega arith)
                  (omega arith) in
              (outcome, rw (wait_loop, early, undecided) ends)
        ]
      ]

  wait_loop-Confirmed :
      (fuel start : ℕ) (world last : World)
      → wait_loop clock sdk client sdk_client tx_id timeout_secs fuel start world
        ≡ some (ok tt, last)
      → Confirmed sdk sdk_client tx_id client.channel_name
  unfolding wait_loop
  wait_loop-Confirmed zero start world last h = absurd (cc (h))
  wait_loop-Confirmed (suc fuel) start world last h =
      elim (Bool-cases (ltb (timeout_secs * second) (clock.instant world - start))) [
        | inl late ↦ absurd (let f = rw (wait_loop, late) at h in cc (f))
        | inr early ↦ elim (Option-cases (verdict tx_id (poll world).0)) [
          | inl undecided ↦
              wait_loop-Confirmed fuel start (clock.sleep 500 (poll world).1) last
                (rw (wait_loop, early, undecided) at h)
          | inr (outcome, decided) ↦
              let f = rw (wait_loop, early, decided) at h in
              let fine : outcome ≡ ok tt = cc (f) in
              let (status, answered, valid) =
                verdict-ok tx_id (poll world).0 (rw fine at decided) in
              record {
                before = world;
                after = (poll world).1;
                status = status;
                answered = rw answered refl;
                valid = valid;
              }
        ]
      ]

  live_wait :
      (world : World)
      → client.is_mock ≡ false
      → wait_for_transaction_commit clock sdk client sdk_client tx_id timeout_secs world
        ≡ wait_loop clock sdk client sdk_client tx_id timeout_secs
            (suc (2 * timeout_secs + 1))
            (clock.instant world)
            world
  unfolding wait_for_transaction_commit
  live_wait world live = rw live refl

  settles :
      (start : ℕ) (world last : World) (outcome : WalletResult (Unit {0})) (fuel : ℕ)
      → wait_loop clock sdk client sdk_client tx_id timeout_secs fuel start world
        ≡ some (outcome, last)
      → Settles sdk sdk_client tx_id client.channel_name outcome
  settles start world last (ok tt) fuel h = wait_loop-Confirmed fuel start world last h
  settles start world last (err e) fuel h = tt

  -- Outside the mock mode the wait returns, whatever the peer answers: its loop never runs out of
  -- rounds, where a sleep lasts as long as it was told and a poll does not turn the clock back. If it
  -- succeeds, the peer has answered that the transaction is valid.
  pub wait_for_transaction_commit_total :
      (laws : ClockLaws clock) (polls : PollLaws clock sdk) (world : World)
      → client.is_mock ≡ false
      → (outcome : WalletResult (Unit {0})) × (last : World) × (wait_for_transaction_commit clock
            sdk client sdk_client tx_id timeout_secs world
          ≡ some (outcome, last))
        × Settles sdk sdk_client tx_id client.channel_name outcome
  wait_for_transaction_commit_total laws polls world live =
      let (outcome, ends) =
        wait_loop_total laws polls (2 * timeout_secs + 1) (clock.instant world) world (omega arith)
          (omega arith) in
      (
        outcome.0,
        outcome.1,
        live_wait world live ∙ ends,
        settles (clock.instant world) world outcome.1 outcome.0 (suc (2 * timeout_secs + 1)) ends,
      )

  pub wait_for_transaction_commit-Confirmed :
      (world last : World)
      → client.is_mock ≡ false
      → wait_for_transaction_commit clock sdk client sdk_client tx_id timeout_secs world
        ≡ some (ok tt, last)
      → Confirmed sdk sdk_client tx_id client.channel_name
  wait_for_transaction_commit-Confirmed world last live h =
      wait_loop-Confirmed (suc (2 * timeout_secs + 1)) (clock.instant world) world last
        (sym (live_wait world live) ∙ h)
