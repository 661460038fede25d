-- ===== src/Pipeline/Revoke.antt =====
-- The daemon's posts as requests of the edge filter's admin listener, over a network that may lose
-- them.
pub mod Reach
use dzta.Prelude.{
  ℕ, Text, Result, ok, err, Option, none, some, Bool, true, false, List, [], ◌∷◌, utf8, text_eq,
  if◌then◌else◌,
}
use dzta.Interfaces.Groth16.{Base64, Groth16}
use dzta.Interfaces.SharedData.{SharedData}
use dzta.Edge.{PluginConfig, Headers, Verdict, HttpResponse, on_http_request_headers}

-- The filter's store, and for each post to come whether it reaches the listener.
pub record EdgeWorld (Store : Type 0) : Type 0 where
  pub store : Store
  pub reachable : List Bool

-- The headers of a post, as the listener sees them.
abbrev pub admin_headers : Text → Text → Headers
admin_headers path token name =
    if text_eq name (utf8 ":path")
    then some path
    else if text_eq name (utf8 "X-Wasm-Admin-Token")
    then some token
    else none

-- The status of the filter's response, or of the upstream's where the filter lets the request pass.
abbrev pub status_of : ℕ → Option HttpResponse → ℕ
status_of upstream none = upstream
status_of upstream (some r) = r.status

-- `path_of_url` is the request target that the HTTP client sends for a url.
module _ {Store F Circuit Proof ProvingKey VerifyingKey : Type 0} (host : SharedData Store)
    (base64 : Base64) (groth : Groth16 F Circuit Proof ProvingKey VerifyingKey)
    (path_of_url : Text → Text) (config : PluginConfig) (pvk : Option VerifyingKey)
    (upstream : ℕ) where
  unfoldable deliver : List Bool → Text → Text → Store → Result Text ℕ × EdgeWorld Store
  deliver [] url token s = (err (utf8 "unreachable"), record { store = s; reachable = [] })
  deliver (false ∷ later) url token s =
      (err (utf8 "unreachable"), record { store = s; reachable = later })
  deliver (true ∷ later) url token s =
      let (verdict, s') =
        on_http_request_headers host base64 groth config pvk (admin_headers (path_of_url url) token)
          s in
      (ok (status_of upstream verdict.response), record { store = s'; reachable = later })

  unfoldable pub send_to_edge : Text → Text → EdgeWorld Store → Result Text ℕ × EdgeWorld Store
  unfolding deliver
  send_to_edge url token world = deliver world.reachable url token world.store
