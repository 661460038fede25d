-- ===== src/Edge/Examples.antt =====
-- The filter's theorems at concrete requests.
use dzta.Prelude.{
  ◌≡◌, ◌↔◌, ◌⊎◌, refl, Text, none, some, false, [], ◌∷◌, ◌++◌, utf8, text_eq, starts_with,
  if◌then◌else◌, split,
}
use dzta.Interfaces.Witnesses.Ciphers.{memory, Store, identity_base64}
use dzta.Interfaces.Witnesses.Proofs.{trusting, certificate}
use dzta.Edge.{
  PluginConfig, Headers, continue, pause, on_http_request_headers, path_of, admin_prefix, target_id,
  serve, admin_request, record_revocation,
}
use dzta.Edge.Path.{IsPlain, revoke_path, target_id-revoke_path, target_id-ampersand}
use dzta.Edge.Gate.{Admitted, on_http_request_headers-continue_iff}
use dzta.Edge.Revocation.{Authorised, on_http_request_headers-store}
use dzta.Edge.Acknowledged.{status_of, on_http_request_headers-refused}

abbrev plain_id : Text
plain_id = 55 ∷ 56 ∷ []

plain_id-IsPlain : IsPlain plain_id
plain_id-IsPlain = record { no_question = refl; no_ampersand = refl; no_equals = refl }

target_id-ampersand_example : target_id (revoke_path (plain_id ++ b'&' ∷ 57 ∷ [])) ≡ some plain_id
target_id-ampersand_example = target_id-ampersand plain_id (57 ∷ []) plain_id-IsPlain refl

abbrev config : PluginConfig
config = record { mode = utf8 "admin_enabled"; admin_token = 116 ∷ [] }

abbrev public_request : Headers
public_request name =
    if text_eq name (utf8 "x-dzta-proof")
    then some []
    else if text_eq name (utf8 "x-dzta-public-inputs")
    then some []
    else if text_eq name (utf8 "x-dzta-revocation-id")
    then some plain_id
    else some (47 ∷ [])

abbrev no_marks : Store
no_marks key = none

on_http_request_headers-continue_iff_example :
    ((on_http_request_headers memory identity_base64 trusting config
        (some certificate)
        public_request
        no_marks).0.action
      ≡ continue)
    ↔ ((starts_with (path_of public_request) admin_prefix ≡ false)
        × Admitted memory identity_base64 trusting (some certificate) public_request no_marks)
on_http_request_headers-continue_iff_example =
    on_http_request_headers-continue_iff memory identity_base64 trusting config (some certificate)
      public_request no_marks

abbrev admin_headers : Headers
admin_headers name =
    if text_eq name (utf8 ":path")
    then some (revoke_path plain_id)
    else if text_eq name (utf8 "X-Wasm-Admin-Token")
    then some (116 ∷ [])
    else none

on_http_request_headers-store_example :
    ((on_http_request_headers memory identity_base64 trusting config
        (some certificate)
        admin_headers
        no_marks).1
      ≡ no_marks)
    ⊎ Authorised memory config admin_headers no_marks
        (on_http_request_headers memory identity_base64 trusting config
          (some certificate)
          admin_headers
          no_marks).1
on_http_request_headers-store_example =
    on_http_request_headers-store memory identity_base64 trusting config (some certificate)
      admin_headers no_marks

abbrev request_of_id : Headers
request_of_id name = some plain_id

recorded :
    status_of
      (on_http_request_headers memory identity_base64 trusting config
        (some certificate)
        admin_headers
        no_marks).0.response
    ≡ 200
unfolding on_http_request_headers utf8 admin_request record_revocation target_id split
recorded = refl

on_http_request_headers-refused_example :
    (on_http_request_headers memory identity_base64 trusting config
      (some certificate)
      request_of_id
      (serve memory identity_base64 trusting
        (some certificate)
        ((config, public_request) ∷ [])
        (on_http_request_headers memory identity_base64 trusting config
          (some certificate)
          admin_headers
          no_marks).1)).0.action
    ≡ pause
unfolding utf8
on_http_request_headers-refused_example =
    on_http_request_headers-refused memory identity_base64 trusting config (some certificate)
      admin_headers no_marks plain_id (target_id-revoke_path plain_id plain_id-IsPlain) recorded
      ((config, public_request) ∷ []) config request_of_id refl
