-- ===== src/Fabric/Client/Retry.antt =====
-- get_endorsements_with_retry of fabric-client/src/fabric_client.rs.
pub mod Bounded
use dzta.Prelude.{ℕ, zero, suc, ◌-◌, ◌*◌, ◌%◌, ◌^◌, Text, ok, err, ◌++◌, true, false, utf8, String}
use dzta.Errors.{WalletError, chaincode_failed}
use dzta.Effects.{Io}
use dzta.Interfaces.Host.{Clock}
use dzta.Interfaces.FabricSdk.{FabricSdk}
use dzta.Fabric.Client.{FabricClient}

-- `100 * 2_u64.pow(n)` in a release build, where both operations wrap.
abbrev pub backoff_ms : ℕ → ℕ
backoff_ms n = 100 * (2 ^ n % 2 ^ 64) % 2 ^ 64

module _ {World : Type 0} (clock : Clock World) (sdk : FabricSdk World) where
  open sdk use {Gateway, EndorseRequest, EndorseResponse, endorse_request, no_transaction}

  -- The loop, over the attempts that are left and the retries made. An error of the library is the
  -- message that it displays.
  unfoldable pub retry_loop :
      ℕ → ℕ → Gateway → EndorseRequest → Io World WalletError EndorseResponse
  retry_loop zero retries gateway_channel request world =
      (err (chaincode_failed (utf8 "Unexpected system exit within client retry block")), world)
  retry_loop (suc left) retries gateway_channel request world =
      let (answer, after) = endorse_request gateway_channel request world in
      elim answer [
        | ok response ↦ (ok response, after)
        | err e ↦ elim left [
          | zero ↦ (
            err (chaincode_failed (utf8 "Max endorsement retries exhausted. Gateway Error: " ++ e)),
            after,
          )
          | suc others ↦
              retry_loop left (suc retries) gateway_channel request
                (clock.sleep (backoff_ms retries) after)
        ]
      ]

  unfoldable pub get_endorsements_with_retry :
      FabricClient → Gateway → EndorseRequest → ℕ → Io World WalletError EndorseResponse
  get_endorsements_with_retry client gateway_channel request max_retries world =
      elim client.is_mock [
        | true ↦ (ok no_transaction, world)
        | false ↦ retry_loop max_retries 0 gateway_channel request world
      ]
