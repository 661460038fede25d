-- ===== src/Interfaces/SharedData.antt =====
-- The shared data store of the proxy_wasm host, which all the filter's contexts see.
use dzta.Prelude.{ℕ, ◌≡◌, ◌≢◌, Text, Result, ok, Option, some}

pub record SharedData (Store : Type 0) : Type 0 where
  -- the value, without the compare-and-swap number that the sources ignore
  pub get_shared_data : Text → Store → Option Text
  -- a failure carries the host's status
  pub set_shared_data : Text → Text → Store → Result ℕ Store
  pub get-set_self :
      (k v : Text) (s s' : Store) → set_shared_data k v s ≡ ok s' → get_shared_data k s' ≡ some v
  pub get-set_ne :
      (k j v : Text) (s s' : Store)
      → k ≢ j
      → set_shared_data k v s ≡ ok s'
      → get_shared_data j s' ≡ get_shared_data j s
