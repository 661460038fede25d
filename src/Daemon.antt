-- ===== src/Daemon.antt =====
-- dzta-revocation-daemon/src/main.rs: the daemon that copies revocations from the ledger's events into
-- its cache and into the edge filter's store.
mod Examples
pub mod Utf8
pub mod Sync
pub mod Cache
pub mod Backoff
use dzta.Prelude.{
  ℕ, zero, suc, ◌+◌, ◌*◌, min, Text, Result, ok, err, Option, none, some, Bool, true, false, ◌||◌,
  ◌&&◌, List, [], ◌∷◌, ◌++◌, utf8, text_eq, any, leb, ltb, if◌then◌else◌,
}
use dzta.Prelude.Int.{ℤ}
use dzta.Daemon.Utf8.{is_utf8}

pub record RevocationEventPayload : Type 0 where
  pub credential_id : Text
  pub revoked_at : ℤ
  pub reason : Text

-- One event of a `ChaincodeEventsResponse`.
pub record ChaincodeEvent : Type 0 where
  pub tx_id : Text
  pub event_name : Text
  pub payload : Text

-- What the daemon does beside changing its cache.
pub data Effect : Type 0 where
  -- a POST to a url with an admin token
  post : Text → Text → Effect
  -- a sleep of so many milliseconds
  sleep : ℕ → Effect

pub record Net (World : Type 0) : Type 0 where
  pub world : World
  pub trace : List Effect

-- The outcome of a POST: the status, or the error of a request that got no response.
abbrev pub Send : Type 0 → Type 0
Send World = Text → Text → World → Result Text ℕ × World

-- `Ok(res) if res.status().is_success()`
abbrev pub is_success : Result Text ℕ → Bool
is_success (ok status) = leb 200 status && ltb status 300
is_success (err e) = false

unfoldable pub revoke_url : Text → Text
revoke_url credential_id = utf8 "http://127.0.0.1:9099/_wasm_admin/revoke?id=" ++ credential_id

-- WASM_ADMIN_TOKEN, or its default.
unfoldable pub admin_token_of : Option Text → Text
admin_token_of none = utf8 "dzta-secure-edge-admin-token-2026"
admin_token_of (some token) = token

module _ {World : Type 0} (send : Send World) where
  -- The loop of sync_to_envoy_memory, over the retries left and the delay in milliseconds.
  unfoldable pub sync_loop : ℕ → ℕ → Text → Text → Net World → Net World
  sync_loop zero delay url token net = net
  sync_loop (suc retries) delay url token net =
      let (outcome, world) = send url token net.world in
      let posted = net.trace ++ post url token ∷ [] in
      elim (is_success outcome) [
        | true ↦ record { world = world; trace = posted }
        | false ↦
            sync_loop retries (min (delay * 2) 5000) url token
              (record { world = world; trace = posted ++ sleep delay ∷ [] })
      ]

  unfoldable pub sync_to_envoy_memory : Option Text → Text → Net World → Net World
  unfolding sync_loop
  sync_to_envoy_memory token credential_id net =
      sync_loop 5 500 (revoke_url credential_id) (admin_token_of token) net

-- HashSet::contains and HashSet::insert.
abbrev pub contains : Text → List Text → Bool
contains id cache = any (λ x. text_eq x id) cache

abbrev insert : Text → List Text → List Text
insert id cache = if contains id cache then cache else id ∷ cache

-- The cache, and the network with its trace. The Fabric client and the user context serve the gRPC
-- connection only, and envoy_admin_url is never read.
pub record FabricRevocationListener (World : Type 0) : Type 0 where
  pub revocation_cache : List Text
  pub net : Net World

module _ {World : Type 0} (send : Send World) (token : Option Text) where
  revoke : Option Text → FabricRevocationListener World → FabricRevocationListener World
  revoke none listener = listener
  revoke (some id) listener = record {
    revocation_cache = insert id listener.revocation_cache;
    net = sync_to_envoy_memory send token id listener.net;
  }

-- `payload_from_slice` is serde_json::from_slice at `RevocationEventPayload`.
module _ (payload_from_slice : Text → Result Text RevocationEventPayload) where
  -- The id that a revocation event carries: of its JSON payload, or the payload itself as text.
  payload_id : Text → Option Text
  payload_id payload = elim (payload_from_slice payload) [
    | ok p ↦ some p.credential_id
    | err _ ↦ if is_utf8 payload then some payload else none
  ]

  -- The id that an event revokes, if it is a revocation event with a payload that can be read.
  pub revoked_id : ChaincodeEvent → Option Text
  unfolding payload_id
  revoked_id event =
      if text_eq event.event_name (utf8 "RevokeCredential")
        || text_eq event.event_name (utf8 "CredentialRevoked")
      then payload_id event.payload
      else none

  module _ {World : Type 0} (send : Send World) (token : Option Text) where
    -- The events of one block, in their order.
    pub process_chaincode_events_response :
        List ChaincodeEvent → FabricRevocationListener World → FabricRevocationListener World
    process_chaincode_events_response [] listener = listener
    process_chaincode_events_response (event ∷ events) listener =
        process_chaincode_events_response events (revoke send token (revoked_id event) listener)

  module _ {World : Type 0} (send : Send World) (token : Option Text) where
    -- The loop of stream_chaincode_events over the blocks that the stream yields before it ends.
    pub process_stream :
        List (List ChaincodeEvent) → FabricRevocationListener World → FabricRevocationListener World
    unfolding process_chaincode_events_response
    process_stream [] listener = listener
    process_stream (events ∷ responses) listener =
        process_stream responses (process_chaincode_events_response send token events listener)

-- One turn of the loop of `run`: from the outcome of the event stream and the back-off in seconds, the
-- next back-off, and how long the daemon sleeps before it.
pub run_turn : Result Text (Unit {0}) → ℕ → ℕ × Option ℕ
run_turn (ok _) retry_backoff = (1, none)
run_turn (err e) retry_backoff = (min (retry_backoff * 2) 30, some retry_backoff)

abbrev sleeps_of : Option ℕ → List ℕ → List ℕ
sleeps_of none sleeps = sleeps
sleeps_of (some n) sleeps = n ∷ sleeps

-- The turns of `run` over a list of outcomes: the last back-off, and the sleeps.
pub run_turns : List (Result Text (Unit {0})) → ℕ → ℕ × List ℕ
unfolding run_turn
run_turns [] retry_backoff = (retry_backoff, [])
run_turns (outcome ∷ outcomes) retry_backoff =
    let (next, slept) = run_turn outcome retry_backoff in
    let (last, sleeps) = run_turns outcomes next in (last, sleeps_of slept sleeps)
