-- ===== src/Fabric/Client/Commit.antt =====
-- wait_for_transaction_commit of fabric-client/src/fabric_client.rs.
pub mod Confirmed
use dzta.Prelude.{
  ℕ, zero, suc, ◌+◌, ◌-◌, ◌*◌, ◌<◌, ◌≤◌, ◌≡◌, refl, ap, Text, Result, ok, err, ◌++◌, Option, none,
  some, Bool, true, false, utf8, ltb, Bool-cases, Option-cases, inl, inr, arith,
}
use dzta.Prelude.Int.{ℤ, pos, negsuc}
use dzta.Prelude.Patterns.{digits, i64_to_string}
use dzta.Errors.{WalletError, WalletResult, chaincode_failed}
use dzta.Interfaces.Host.{Clock, ClockLaws}
use dzta.Interfaces.FabricSdk.{FabricSdk, CommitStatus}
use dzta.Fabric.Client.{FabricClient}

abbrev pub second : ℕ
second = 1000000000

abbrev pub expired : Text → ℕ → WalletError
expired tx_id timeout_secs = chaincode_failed (
    utf8 "Transaction "
    ++ (tx_id ++ (utf8 " not committed within " ++ (digits 20 timeout_secs ++ utf8 " seconds"))))

abbrev pub rejected : Text → ℤ → WalletError
rejected tx_id result = chaincode_failed (
    utf8 "Transaction "
    ++ (tx_id ++ (utf8 " rejected by peer validation code: " ++ i64_to_string result)))

-- The outcome that an answer of the peer decides, if it decides one.
unfoldable pub verdict : Text → Result Text CommitStatus → Option (WalletResult (Unit {0}))
verdict tx_id (err e) = none
verdict tx_id (ok status) = elim status.result [
  | pos n ↦ elim n [ zero ↦ some (ok tt) | suc k ↦ some (err (rejected tx_id (pos (suc k)))) ]
  | negsuc n ↦ none
]

module _ {World : Type 0} (clock : Clock World) (sdk : FabricSdk World) (client : FabricClient)
    (sdk_client : sdk.Client) (tx_id : Text) (timeout_secs : ℕ) where
  -- The loop, from the instant at which the wait started; `none` when the fuel is used up.
  unfoldable pub wait_loop : ℕ → ℕ → World → Option (WalletResult (Unit {0}) × World)
  wait_loop zero start world = none
  wait_loop (suc fuel) start world =
      elim (ltb (timeout_secs * second) (clock.instant world - start)) [
        | true ↦ some (err (expired tx_id timeout_secs), world)
        | false ↦
            let (answer, after) = sdk.commit_status sdk_client tx_id client.channel_name world in
            elim (verdict tx_id answer) [
              | some outcome ↦ some (outcome, after)
              | none ↦ wait_loop fuel start (clock.sleep 500 after)
            ]
      ]

  -- Each round but the last sleeps half a second, so there are at most 2 * timeout_secs + 2.
  unfoldable pub wait_for_transaction_commit : World → Option (WalletResult (Unit {0}) × World)
  wait_for_transaction_commit world = elim client.is_mock [
    | true ↦ some (ok tt, world)
    | false ↦ wait_loop (suc (2 * timeout_secs + 1)) (clock.instant world) world
  ]
