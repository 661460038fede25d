-- ===== src/Edge/Acknowledged.antt =====
-- What follows from the filter's answer 200 to a request.
use dzta.Prelude.{
  ◌≡◌, ◌≢◌, inl, inr, Text, Result, ok, err, ℕ, Option, none, some, true, false, utf8, text_eq,
  starts_with, arith, Bool-cases, Result-cases, List, [], ◌∷◌, is_empty, Bool,
}
use dzta.Interfaces.Groth16.{Base64, Groth16}
use dzta.Interfaces.SharedData.{SharedData}
use dzta.Edge.{
  PluginConfig, Headers, HttpResponse, pause, path_of, token_of, admin_prefix, admin_request,
  record_revocation, serve, target_id, on_http_request_headers, revoked_key, yes_bytes,
  gate_request, check_headers, verify_zkp, answer, is_true,
}
use dzta.Edge.Gate.{on_admin_path, on_public_path}
use dzta.Edge.Revocation.{IsRevoked, IsRevoked-serve, IsRevoked-pause, passed}

-- The status of the response that the filter sent, or 0.
abbrev pub status_of : Option HttpResponse → ℕ
status_of none = 0
status_of (some r) = r.status

module _ {Store : Type 0} (host : SharedData Store) where
  record_revocation-IsRevoked :
      (id : Text) (s : Store)
      → status_of (record_revocation host (some id) s).0.response ≡ 200
      → IsRevoked host id (record_revocation host (some id) s).1
  unfolding record_revocation
  record_revocation-IsRevoked [] s h = absurd (omega (arith, h))
  record_revocation-IsRevoked (c ∷ id) s h =
      elim (Result-cases (host.set_shared_data (revoked_key (c ∷ id)) yes_bytes s)) [
        | inl (s', done) ↦ rw done (host.get-set_self _ _ s s' done)
        | inr (e, failed) ↦ absurd (let f = rw failed at h in omega (arith, f))
      ]

  admin_request-IsRevoked :
      (config : PluginConfig) (header : Headers) (s : Store) (id : Text)
      → target_id (path_of header) ≡ some id
      → status_of (admin_request host config header (path_of header) s).0.response ≡ 200
      → IsRevoked host id (admin_request host config header (path_of header) s).1
  unfolding admin_request
  admin_request-IsRevoked config header s id named h =
      elim (Bool-cases (text_eq config.mode (utf8 "admin_enabled"))) [
        | inr off ↦ absurd (let f = rw (admin_request, off) at h in omega (arith, f))
        | inl on ↦ elim (Bool-cases (is_empty (token_of header))) [
          | inl missing ↦ absurd (let f = rw (admin_request, on, missing) at h in omega (arith, f))
          | inr given ↦ elim (Bool-cases (text_eq (token_of header) config.admin_token)) [
            | inr wrong ↦
                absurd (let f = rw (admin_request, on, given, wrong) at h in omega (arith, f))
            | inl right ↦
                let done = passed host config header s on given right in
                let told = rw (done, named) at h in
                rw (done, named) (record_revocation-IsRevoked id s told)
          ]
        ]
      ]

  module _ {F Circuit Proof ProvingKey VerifyingKey : Type 0} (base64 : Base64)
      (groth : Groth16 F Circuit Proof ProvingKey VerifyingKey) where
    answer-unrecorded : (r : Result Text Bool) → status_of (answer r).response ≢ 200
    answer-unrecorded (ok true) h = omega (arith, h)
    answer-unrecorded (ok false) h = omega (arith, h)
    answer-unrecorded (err e) h = omega (arith, h)

    check_headers-unrecorded :
        (pvk : VerifyingKey) (proof inputs rev_id : Option Text) (s : Store)
        → status_of (check_headers host base64 groth pvk proof inputs rev_id s).response ≢ 200
    check_headers-unrecorded pvk none inputs rev_id s h = omega (arith, h)
    check_headers-unrecorded pvk (some proof) none rev_id s h = omega (arith, h)
    check_headers-unrecorded pvk (some proof) (some inputs) none s h = omega (arith, h)
    check_headers-unrecorded pvk (some proof) (some inputs) (some rev_id) s h =
        elim (Bool-cases (is_true (host.get_shared_data (revoked_key rev_id) s))) [
          | inl revoked ↦ let f = rw revoked at h in omega (arith, f)
          | inr free ↦ answer-unrecorded (verify_zkp base64 groth pvk proof inputs) (rw free at h)
        ]

    gate_request-unrecorded :
        (pvk : Option VerifyingKey) (header : Headers) (s : Store)
        → status_of (gate_request host base64 groth pvk header s).response ≢ 200
    unfolding gate_request
    gate_request-unrecorded none header s h = omega (arith, h)
    gate_request-unrecorded (some pvk) header s h = check_headers-unrecorded pvk _ _ _ s h

    recorded :
        (config : PluginConfig) (pvk : Option VerifyingKey) (header : Headers) (s : Store)
        (id : Text)
        → target_id (path_of header) ≡ some id
        → status_of (on_http_request_headers host base64 groth config pvk header s).0.response ≡ 200
        → IsRevoked host id (on_http_request_headers host base64 groth config pvk header s).1
    recorded config pvk header s id named h =
        elim (Bool-cases (starts_with (path_of header) admin_prefix)) [
          | inl admin ↦
              let there = on_admin_path host base64 groth config pvk header s admin in
              rw there (admin_request-IsRevoked config header s id named (rw there at h))
          | inr public ↦
              let there = on_public_path host base64 groth config pvk header s public in
              absurd (gate_request-unrecorded pvk header s (rw there at h))
        ]

    -- Once the filter has answered 200 to a request whose query names an id, every later request that
    -- carries the id is refused, whatever requests stood between, whatever configuration it meets and
    -- whatever proof it brings.
    pub on_http_request_headers-refused :
        (config : PluginConfig) (pvk : Option VerifyingKey) (header : Headers) (s : Store)
        (id : Text)
        → target_id (path_of header) ≡ some id
        → status_of (on_http_request_headers host base64 groth config pvk header s).0.response ≡ 200
        → (between : List (PluginConfig × Headers)) (later : PluginConfig) (request : Headers)
        → request (utf8 "x-dzta-revocation-id") ≡ some id
        → (on_http_request_headers host base64 groth later pvk request (
            serve host base64 groth pvk between
              (on_http_request_headers host base64 groth config pvk header s).1)).0.action
          ≡ pause
    on_http_request_headers-refused config pvk header s id named answered between later request
          carries =
        IsRevoked-pause host base64 groth later pvk request _ id
          (IsRevoked-serve host base64 groth pvk between _ id
            (recorded config pvk header s id named answered))
          carries
