-- ===== src/Edge/Revocation.antt =====
-- Revocations in the store: who may write them, and that they last.
use dzta.Prelude.{
  ◌≡◌, ◌⊎◌, inl, inr, refl, ap, Text, ok, Option, none, some, true, false, utf8, text_eq,
  text_eq_iff, starts_with, arith, Bool-cases, Result-cases, List, [], ◌∷◌, is_empty,
}
use dzta.Interfaces.Groth16.{Base64, Groth16}
use dzta.Interfaces.SharedData.{SharedData}
use dzta.Edge.{
  PluginConfig, Headers, Action, continue, pause, path_of, token_of, admin_prefix, admin_request,
  record_revocation, serve, target_id, on_http_request_headers, revoked_key, yes_bytes,
}
use dzta.Edge.Gate.{on_admin_path, on_public_path, on_http_request_headers-continue_iff}

module _ {Store : Type 0} (host : SharedData Store) where
  open host use {get_shared_data, set_shared_data, get-set_self, get-set_ne}

  -- The store holds the mark of the id.
  abbrev pub IsRevoked : Text → Store → Type 0
  IsRevoked id s = get_shared_data (revoked_key id) s ≡ some yes_bytes

  -- An authorised admin request that names an id, and the store with its mark.
  pub record Authorised (config : PluginConfig) (header : Headers) (s s' : Store) : Type 0 where
    pub id : Text
    pub enabled : text_eq config.mode (utf8 "admin_enabled") ≡ true
    pub has_token : is_empty (token_of header) ≡ false
    pub token : text_eq (token_of header) config.admin_token ≡ true
    pub path : starts_with (path_of header) admin_prefix ≡ true
    pub named : target_id (path_of header) ≡ some id
    pub nonempty : is_empty id ≡ false
    pub written : set_shared_data (revoked_key id) yes_bytes s ≡ ok s'

  record Recorded (target : Option Text) (s s' : Store) : Type 0 where
    id : Text
    named : target ≡ some id
    nonempty : is_empty id ≡ false
    written : set_shared_data (revoked_key id) yes_bytes s ≡ ok s'

  record_revocation-cases :
      (target : Option Text) (s : Store)
      → ((record_revocation host target s).1 ≡ s)
        ⊎ Recorded target s (record_revocation host target s).1
  unfolding record_revocation
  record_revocation-cases none s = inl refl
  record_revocation-cases (some []) s = inl refl
  record_revocation-cases (some (c ∷ id)) s =
      elim (Result-cases (set_shared_data (revoked_key (c ∷ id)) yes_bytes s)) [
        | inl (s', done) ↦
            inr (record { id = c ∷ id; named = refl; nonempty = refl; written = rw done })
        | inr (e, failed) ↦ inl (rw failed)
      ]

  -- A request that passes the two guards of the admin interceptor.
  pub passed :
      (config : PluginConfig) (header : Headers) (s : Store)
      → text_eq config.mode (utf8 "admin_enabled") ≡ true
      → is_empty (token_of header) ≡ false
      → text_eq (token_of header) config.admin_token ≡ true
      → admin_request host config header (path_of header) s
        ≡ record_revocation host (target_id (path_of header)) s
  unfolding admin_request
  passed config header s on given right = rw (admin_request, on, given, right)

  admin_request-cases :
      (config : PluginConfig) (header : Headers) (s : Store)
      → starts_with (path_of header) admin_prefix ≡ true
      → ((admin_request host config header (path_of header) s).1 ≡ s)
        ⊎ Authorised config header s (admin_request host config header (path_of header) s).1
  unfolding admin_request
  admin_request-cases config header s admin =
      elim (Bool-cases (text_eq config.mode (utf8 "admin_enabled"))) [
        | inr off ↦ inl (ground arith)
        | inl on ↦ elim (Bool-cases (is_empty (token_of header))) [
          | inl missing ↦ inl (ground arith)
          | inr given ↦ elim (Bool-cases (text_eq (token_of header) config.admin_token)) [
            | inr wrong ↦ inl (ground arith)
            | inl right ↦
                rw (passed config header s on given right)
                  (elim (record_revocation-cases (target_id (path_of header)) s) [
                    | inl same ↦ inl same
                    | inr r ↦ inr (record {
                      id = r.id;
                      enabled = on;
                      has_token = given;
                      token = right;
                      path = admin;
                      named = r.named;
                      nonempty = r.nonempty;
                      written = r.written;
                    })
                  ])
          ]
        ]
      ]

  IsRevoked-Authorised :
      {config : PluginConfig} {header : Headers} {s s' : Store} (a : Authorised config header s s')
      (id : Text)
      → IsRevoked id s
      → IsRevoked id s'
  IsRevoked-Authorised {s} {s'} a id h =
      elim (Bool-cases (text_eq (revoked_key a.id) (revoked_key id))) [
        | inl same ↦
            rw (← (text_eq_iff (revoked_key a.id) (revoked_key id)).0 same)
              (get-set_self _ _ s s' a.written)
        | inr other ↦
            rw
              (get-set_ne (revoked_key a.id) (revoked_key id) yes_bytes s s'
                (λ e. ground (arith, text_eq_iff (revoked_key a.id) (revoked_key id))) a.written)
              h
      ]

  module _ {F Circuit Proof ProvingKey VerifyingKey : Type 0} (base64 : Base64)
      (groth : Groth16 F Circuit Proof ProvingKey VerifyingKey) where
    -- A request leaves the store as it was, or it is an authorised admin request whose id the store
    -- then marks.
    pub on_http_request_headers-store :
        (config : PluginConfig) (pvk : Option VerifyingKey) (header : Headers) (s : Store)
        → ((on_http_request_headers host base64 groth config pvk header s).1 ≡ s)
          ⊎ Authorised config header s
              (on_http_request_headers host base64 groth config pvk header s).1
    on_http_request_headers-store config pvk header s =
        elim (Bool-cases (starts_with (path_of header) admin_prefix)) [
          | inl admin ↦
              rw (on_admin_path host base64 groth config pvk header s admin)
                (admin_request-cases config header s admin)
          | inr public ↦
              inl (ap (λ r. r.1) (on_public_path host base64 groth config pvk header s public))
        ]

    IsRevoked-on_http_request_headers :
        (config : PluginConfig) (pvk : Option VerifyingKey) (header : Headers) (s : Store)
        (id : Text)
        → IsRevoked id s
        → IsRevoked id (on_http_request_headers host base64 groth config pvk header s).1
    IsRevoked-on_http_request_headers config pvk header s id h =
        elim (on_http_request_headers-store config pvk header s) [
          | inl same ↦ rw same h
          | inr a ↦ IsRevoked-Authorised a id h
        ]

    -- A mark is never taken back, whatever requests follow.
    pub IsRevoked-serve :
        (pvk : Option VerifyingKey) (requests : List (PluginConfig × Headers)) (s : Store)
        (id : Text)
        → IsRevoked id s
        → IsRevoked id (serve host base64 groth pvk requests s)
    unfolding serve
    IsRevoked-serve pvk [] s id h = h
    IsRevoked-serve pvk ((config, header) ∷ rest) s id h =
        IsRevoked-serve pvk rest _ id (IsRevoked-on_http_request_headers config pvk header s id h)

    Action-cases : (a : Action) → (a ≡ continue) ⊎ (a ≡ pause)
    Action-cases continue = inl refl
    Action-cases pause = inr refl

    pub IsRevoked-pause :
        (config : PluginConfig) (pvk : Option VerifyingKey) (header : Headers) (s : Store)
        (id : Text)
        → IsRevoked id s
        → header (utf8 "x-dzta-revocation-id") ≡ some id
        → (on_http_request_headers host base64 groth config pvk header s).0.action ≡ pause
    IsRevoked-pause config pvk header s id h named =
        elim (Action-cases
          (on_http_request_headers host base64 groth config pvk header s).0.action) [
            | inl passes ↦
                let a =
                  ((on_http_request_headers-continue_iff host base64 groth config pvk header s).0
                    passes).1 in
                absurd
                  (a.not_revoked (let same : a.rev_id ≡ id = cc (a.has_rev_id, named) in rw same h))
            | inr pauses ↦ pauses
          ]
