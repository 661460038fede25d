-- ===== src/Pipeline/Revoke/Reach.antt =====
-- A revocation that the daemon pushes reaches the filter if one of its five posts does.
use dzta.Prelude.{
  ℕ, zero, suc, ◌≡◌, refl, ap, Text, Result, ok, Option, some, Bool, true, false, List, [], ◌∷◌,
  utf8, text_eq, text_eq_refl, starts_with-append, starts_with, is_empty, ◌∙◌,
}
use dzta.Interfaces.Groth16.{Base64, Groth16}
use dzta.Interfaces.SharedData.{SharedData}
use dzta.Edge.{
  PluginConfig, Headers, pause, on_http_request_headers, revoked_key, yes_bytes, admin_prefix,
  target_id, serve, path_of, token_of, record_revocation, refuse,
}
use dzta.Edge.Path.{IsPlain, revoke_path, target_id-revoke_path}
use dzta.Edge.Gate.{on_admin_path}
use dzta.Edge.Revocation.{IsRevoked, passed, IsRevoked-pause, IsRevoked-serve}
use dzta.Daemon.{Effect, sync_loop, sync_to_envoy_memory, revoke_url, admin_token_of, is_success}
use dzta.Daemon.Sync.{round_done, round_failed}
use dzta.Pipeline.Revoke.{EdgeWorld, send_to_edge, deliver, status_of, admin_headers}

-- Whether one of the first so many posts reaches the listener.
abbrev pub reaches : ℕ → List Bool → Bool
reaches zero tries = false
reaches (suc n) [] = false
reaches (suc n) (true ∷ later) = true
reaches (suc n) (false ∷ later) = reaches n later

module _ {Store F Circuit Proof ProvingKey VerifyingKey : Type 0} (host : SharedData Store)
    (base64 : Base64) (groth : Groth16 F Circuit Proof ProvingKey VerifyingKey)
    (path_of_url : Text → Text) (config : PluginConfig) (pvk : Option VerifyingKey)
    (upstream : ℕ) where
  -- What the push of an id relies on: the listener's configuration, an id that needs no escaping, a
  -- client that sends its url's path and query as they are, and a host that can store the mark.
  pub record Pushable (token id : Text) : Type 0 where
    pub enabled : config.mode ≡ utf8 "admin_enabled"
    pub same_token : config.admin_token ≡ token
    pub has_token : is_empty token ≡ false
    pub plain : IsPlain id
    pub nonempty : is_empty id ≡ false
    pub path : path_of_url (revoke_url id) ≡ revoke_path id
    pub store_after : Store → Store
    pub stores :
        (s : Store) → host.set_shared_data (revoked_key id) yes_bytes s ≡ ok (store_after s)

  module _ (token id : Text) (p : Pushable token id) where
    abbrev header : Headers
    header = admin_headers (path_of_url (revoke_url id)) token

    path-header : path_of header ≡ revoke_path id
    unfolding utf8
    path-header = p.path

    token-header : token_of header ≡ token
    unfolding utf8
    token-header = refl

    is_admin : starts_with (path_of header) admin_prefix ≡ true
    is_admin = rw (path-header) (starts_with-append admin_prefix _)

    is_enabled : text_eq config.mode (utf8 "admin_enabled") ≡ true
    is_enabled = rw (p.enabled) (text_eq_refl (utf8 "admin_enabled"))

    is_given : is_empty (token_of header) ≡ false
    is_given = rw (token-header) p.has_token

    is_right : text_eq (token_of header) config.admin_token ≡ true
    is_right = rw (token-header, p.same_token) (text_eq_refl token)

    recorded_id :
        (i : Text) (s s' : Store)
        → is_empty i ≡ false
        → host.set_shared_data (revoked_key i) yes_bytes s ≡ ok s'
        → record_revocation host (some i) s
          ≡ (refuse 200 (utf8 "OK: Credential Revocation Recorded\n"), s')
    unfolding record_revocation
    recorded_id [] s s' h done = absurd (cc (h))
    recorded_id (c ∷ i) s s' h done = rw (done)

    recorded :
        (s : Store)
        → record_revocation host (target_id (path_of header)) s
          ≡ (refuse 200 (utf8 "OK: Credential Revocation Recorded\n"), p.store_after s)
    recorded s =
        rw (path-header, target_id-revoke_path id p.plain)
          (recorded_id id s _ p.nonempty (p.stores s))

    -- The listener answers the post with 200 and has stored the mark.
    accepted :
        (s : Store)
        → on_http_request_headers host base64 groth config pvk header s
          ≡ (refuse 200 (utf8 "OK: Credential Revocation Recorded\n"), p.store_after s)
    accepted s =
        on_admin_path host base64 groth config pvk header s is_admin
        ∙ passed host config header s is_enabled is_given is_right
        ∙ recorded s

    abbrev pushed : (s : Store) (later : List Bool) → EdgeWorld Store
    pushed s later = record { store = s; reachable = true ∷ later }

    delivered :
        (s : Store) (later : List Bool)
        → send_to_edge host base64 groth path_of_url config pvk upstream
            (revoke_url id)
            token
            (pushed s later)
          ≡ (ok 200, record { store = p.store_after s; reachable = later })
    unfolding send_to_edge deliver
    delivered s later =
        ap (λ r. (ok (status_of upstream r.0.response), record { store = r.1; reachable = later }))
          (accepted s)

    abbrev send : Text → Text → EdgeWorld Store → Result Text ℕ × EdgeWorld Store
    send = send_to_edge host base64 groth path_of_url config pvk upstream

    lost :
        (s : Store) (later : List Bool)
        → is_success
            (send (revoke_url id) token (record { store = s; reachable = false ∷ later })).0
          ≡ false
    unfolding send_to_edge deliver
    lost s later = refl

    lost_world :
        (s : Store) (later : List Bool)
        → (send (revoke_url id) token (record { store = s; reachable = false ∷ later })).1
          ≡ record { store = s; reachable = later }
    unfolding send_to_edge deliver
    lost_world s later = refl

    reached :
        (s : Store) (later : List Bool)
        → is_success (send (revoke_url id) token (pushed s later)).0 ≡ true
    reached s later = rw (delivered s later)

    sync_loop-IsRevoked :
        (retries delay : ℕ) (s : Store) (tries : List Bool) (trace : List Effect)
        → reaches retries tries ≡ true
        → IsRevoked host id
            (sync_loop send retries delay (revoke_url id) token (record {
              world = record { store = s; reachable = tries };
              trace = trace;
            })).world.store
    sync_loop-IsRevoked zero delay s tries trace h = absurd (cc (h))
    sync_loop-IsRevoked (suc n) delay s [] trace h = absurd (cc (h))
    sync_loop-IsRevoked (suc n) delay s (true ∷ later) trace h =
        rw
          (round_done send n delay (revoke_url id) token
            (record { world = pushed s later; trace = trace }) (reached s later))
          (rw (delivered s later) (host.get-set_self _ _ s _ (p.stores s)))
    sync_loop-IsRevoked (suc n) delay s (false ∷ later) trace h =
        rw
          (round_failed send n delay (revoke_url id) token
            (record { world = record { store = s; reachable = false ∷ later }; trace = trace })
            (lost s later))
          (rw (lost_world s later) (sync_loop-IsRevoked n _ s later _ h))

    -- The push of an id without separators of a URL's query, to a listener that is enabled for
    -- admin requests with the daemon's token, by a client that sends the path of its url as it is and on
    -- a host that can store the mark: if one of the five posts reaches the listener, every later request
    -- that carries the id is refused, whatever requests stood between.
    pub sync_to_envoy_memory-refused :
        (env : Option Text) (world : EdgeWorld Store) (trace : List Effect)
        (later_vk : Option VerifyingKey) (between : List (PluginConfig × Headers))
        (listener : PluginConfig) (request : Headers)
        → admin_token_of env ≡ token
        → reaches 5 world.reachable ≡ true
        → request (utf8 "x-dzta-revocation-id") ≡ some id
        → let after = sync_to_envoy_memory send env id (record { world = world; trace = trace }) in
          (on_http_request_headers host base64 groth listener later_vk request
            (serve host base64 groth later_vk between after.world.store)).0.action
          ≡ pause
    unfolding sync_to_envoy_memory
    sync_to_envoy_memory-refused env world trace later_vk between listener request same h named =
        IsRevoked-pause host base64 groth listener later_vk request _ id
          (IsRevoked-serve host base64 groth later_vk between _ id
            (rw (same) (sync_loop-IsRevoked 5 500 world.store world.reachable trace h)))
          named
