-- ===== src/Edge/Gate.antt =====
-- Which requests pass the filter.
use dzta.Prelude.{
  text_eq_refl, ◌≡◌, ◌≢◌, ◌↔◌, inl, inr, refl, ap, Text, ok, Option, none, some, true, false, utf8,
  text_eq, text_eq_iff, starts_with, arith, Bool-cases,
}
use dzta.Interfaces.Groth16.{Base64, Groth16}
use dzta.Interfaces.SharedData.{SharedData}
use dzta.Edge.{
  is_true, is_true, PluginConfig, Headers, continue, pause, path_of, admin_prefix, admin_request,
  record_revocation, verify_zkp, gate_request, on_http_request_headers, revoked_key, yes_bytes,
  check_headers,
}

module _ {Store F Circuit Proof ProvingKey VerifyingKey : Type 0} (host : SharedData Store)
    (base64 : Base64) (groth : Groth16 F Circuit Proof ProvingKey VerifyingKey) where
  -- What a request needs to pass.
  pub record Admitted (pvk : Option VerifyingKey) (header : Headers) (s : Store) : Type 0 where
    pub key : VerifyingKey
    pub proof : Text
    pub inputs : Text
    pub rev_id : Text
    pub has_key : pvk ≡ some key
    pub has_proof : header (utf8 "x-dzta-proof") ≡ some proof
    pub has_inputs : header (utf8 "x-dzta-public-inputs") ≡ some inputs
    pub has_rev_id : header (utf8 "x-dzta-revocation-id") ≡ some rev_id
    pub not_revoked : host.get_shared_data (revoked_key rev_id) s ≢ some yes_bytes
    pub verified : verify_zkp base64 groth key proof inputs ≡ ok true

  verified_of_continue :
      (pvk : VerifyingKey) (s : Store) (proof inputs rev_id : Text)
      → (check_headers host base64 groth pvk (some proof) (some inputs) (some rev_id) s).action
        ≡ continue
      → verify_zkp base64 groth pvk proof inputs ≡ ok true
  verified_of_continue pvk s proof inputs rev_id h = ground arith

  not_revoked_of_continue :
      (pvk : VerifyingKey) (s : Store) (proof inputs rev_id : Text)
      → (check_headers host base64 groth pvk (some proof) (some inputs) (some rev_id) s).action
        ≡ continue
      → host.get_shared_data (revoked_key rev_id) s ≢ some yes_bytes
  not_revoked_of_continue pvk s proof inputs rev_id h e = ground (arith, text_eq_refl yes_bytes)

  check_headers-continue :
      (pvk : VerifyingKey) (header : Headers) (s : Store) (proof inputs rev_id : Option Text)
      → header (utf8 "x-dzta-proof") ≡ proof
      → header (utf8 "x-dzta-public-inputs") ≡ inputs
      → header (utf8 "x-dzta-revocation-id") ≡ rev_id
      → (check_headers host base64 groth pvk proof inputs rev_id s).action ≡ continue
      → Admitted (some pvk) header s
  check_headers-continue pvk header s (some proof) (some inputs) (some rev_id) hp hi hr h = record {
    key = pvk;
    proof = proof;
    inputs = inputs;
    rev_id = rev_id;
    has_key = refl;
    has_proof = hp;
    has_inputs = hi;
    has_rev_id = hr;
    not_revoked = not_revoked_of_continue pvk s proof inputs rev_id h;
    verified = verified_of_continue pvk s proof inputs rev_id h;
  }
  check_headers-continue pvk header s none inputs rev_id hp hi hr h = absurd (cc)
  check_headers-continue pvk header s (some proof) none rev_id hp hi hr h = absurd (cc)
  check_headers-continue pvk header s (some proof) (some inputs) none hp hi hr h = absurd (cc)

  gate_request-continue :
      (pvk : Option VerifyingKey) (header : Headers) (s : Store)
      → (gate_request host base64 groth pvk header s).action ≡ continue
      → Admitted pvk header s
  unfolding gate_request
  gate_request-continue none header s h = absurd (cc)
  gate_request-continue (some pvk) header s h =
      check_headers-continue pvk header s _ _ _ refl refl refl h

  not_yes : (o : Option Text) → o ≢ some yes_bytes → is_true o ≡ false
  not_yes none h = refl
  not_yes (some v) h = elim (Bool-cases (text_eq v yes_bytes)) [
    | inl same ↦ absurd (h (ap some ((text_eq_iff v yes_bytes).0 same)))
    | inr other ↦ other
  ]

  Admitted-gate_request :
      (pvk : Option VerifyingKey) (header : Headers) (s : Store)
      → Admitted pvk header s
      → (gate_request host base64 groth pvk header s).action ≡ continue
  unfolding gate_request
  Admitted-gate_request pvk header s a =
      let allowed = not_yes (host.get_shared_data (revoked_key a.rev_id) s) a.not_revoked in
      rw (a.has_key, gate_request, a.has_proof, a.has_inputs, a.has_rev_id, allowed, a.verified)

  admin_request-pause :
      (config : PluginConfig) (header : Headers) (path : Text) (s : Store)
      → (admin_request host config header path s).0.action ≡ pause
  unfolding admin_request record_revocation
  admin_request-pause config header path s = ground arith

  pub on_admin_path :
      (config : PluginConfig) (pvk : Option VerifyingKey) (header : Headers) (s : Store)
      → starts_with (path_of header) admin_prefix ≡ true
      → on_http_request_headers host base64 groth config pvk header s
        ≡ admin_request host config header (path_of header) s
  unfolding on_http_request_headers
  on_admin_path config pvk header s admin = rw (on_http_request_headers, admin)

  pub on_public_path :
      (config : PluginConfig) (pvk : Option VerifyingKey) (header : Headers) (s : Store)
      → starts_with (path_of header) admin_prefix ≡ false
      → on_http_request_headers host base64 groth config pvk header s
        ≡ (gate_request host base64 groth pvk header s, s)
  unfolding on_http_request_headers
  on_public_path config pvk header s public = rw (on_http_request_headers, public)

  -- A request passes exactly when its path is no admin path, the verifying key was read, the three
  -- headers are there, the revocation id is not marked in the store, and the proof verifies.
  pub on_http_request_headers-continue_iff :
      (config : PluginConfig) (pvk : Option VerifyingKey) (header : Headers) (s : Store)
      → ((on_http_request_headers host base64 groth config pvk header s).0.action ≡ continue)
        ↔ ((starts_with (path_of header) admin_prefix ≡ false) × Admitted pvk header s)
  on_http_request_headers-continue_iff config pvk header s =
      let path = path_of header in
      elim (Bool-cases (starts_with path admin_prefix)) [
        | inl admin ↦
            let paused = admin_request-pause config header path s in
            rw (on_admin_path config pvk header s admin)
              (λ h. absurd (cc (paused)), λ h. absurd (cc (admin, h.0)))
        | inr public ↦ rw (on_public_path config pvk header s public) (
          λ h. (public, gate_request-continue pvk header s h),
          λ h. Admitted-gate_request pvk header s h.1,
        )
      ]
