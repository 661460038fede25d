-- ===== src/Transport/Url.antt =====
-- The joint of the gateway's URL and the path.
use dzta.Prelude.{◌≡◌, Text, some, false, [], ◌∷◌, ◌++◌, trim, starts_with, ends_with}
use dzta.Transport.{TransportConfig, target_url}

-- A URL without a slash at its end is joined to a path by one slash, whether the path starts with one
-- or not.
pub target_url-joint :
    (c : TransportConfig) (path : Text)
    → ends_with (trim c.envoy_url) (b'/' ∷ []) ≡ false
    → starts_with path (b'/' ∷ []) ≡ false
    → (target_url c (some path) ≡ trim c.envoy_url ++ b'/' ∷ path)
      × (target_url c (some (b'/' ∷ path)) ≡ trim c.envoy_url ++ b'/' ∷ path)
unfolding target_url
target_url-joint c path h k = (rw (target_url, h, k), rw (target_url, h))
