-- ===== src/Daemon/Examples.antt =====
-- The daemon's theorems at concrete runs.
use dzta.Prelude.{
  ℕ, ◌≡◌, ◌≤◌, Text, Result, ok, err, none, ◌||◌, any, [], ◌∷◌, utf8, leb, suc, if◌then◌else◌,
}
use dzta.Daemon.{
  RevocationEventPayload, ChaincodeEvent, FabricRevocationListener, Net, Send, contains, revoked_id,
  sync_to_envoy_memory, process_chaincode_events_response,
}
use dzta.Daemon.Sync.{count_posts, total_sleep, sync_to_envoy_memory_bounds}
use dzta.Daemon.Cache.{contains-process, is_some_text}

-- A listener that answers from the third post on.
abbrev third_time : Send ℕ
third_time url token posts =
    if leb 2 posts then (ok 200, suc posts) else (err (utf8 "connection refused"), suc posts)

abbrev start : Net ℕ
start = record { world = 0; trace = [] }

sync_to_envoy_memory_bounds_example :
    (1 ≤ count_posts (sync_to_envoy_memory third_time none (55 ∷ []) start).trace)
    × (count_posts (sync_to_envoy_memory third_time none (55 ∷ []) start).trace ≤ 5)
    × (total_sleep (sync_to_envoy_memory third_time none (55 ∷ []) start).trace ≤ 12500)
sync_to_envoy_memory_bounds_example = sync_to_envoy_memory_bounds third_time none (55 ∷ []) 0

-- No payload is JSON: each is an id as it stands.
abbrev no_json : Text → Result Text RevocationEventPayload
no_json payload = err (utf8 "expected value")

abbrev revocation : ChaincodeEvent
revocation = record { tx_id = []; event_name = utf8 "RevokeCredential"; payload = 55 ∷ [] }

abbrev listener : FabricRevocationListener ℕ
listener = record { revocation_cache = (56 ∷ []) ∷ []; net = start }

contains-process_example :
    contains
      (55 ∷ [])
      (process_chaincode_events_response no_json third_time none
        (revocation ∷ [])
        listener).revocation_cache
    ≡ (contains (55 ∷ []) listener.revocation_cache
        || any (λ e. is_some_text (revoked_id no_json e) (55 ∷ [])) (revocation ∷ []))
contains-process_example =
    contains-process no_json third_time none (revocation ∷ []) listener (55 ∷ [])
