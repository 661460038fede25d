-- ===== src/Daemon/Sync.antt =====
-- How often the daemon posts a revocation, and how long it waits.
use dzta.Prelude.{
  ℕ, zero, suc, ◌+◌, ◌*◌, ◌≤◌, min, ◌≡◌, Text, Option, true, false, List, [], ◌∷◌, ◌++◌, arith,
  Bool-cases, inl, inr,
}
use dzta.Daemon.{
  revoke_url, admin_token_of, Effect, post, sleep, Net, Send, is_success, sync_loop,
  sync_to_envoy_memory,
}

abbrev pub count_posts : List Effect → ℕ
count_posts [] = 0
count_posts (post url token ∷ trace) = suc (count_posts trace)
count_posts (sleep ms ∷ trace) = count_posts trace

abbrev pub total_sleep : List Effect → ℕ
total_sleep [] = 0
total_sleep (post url token ∷ trace) = total_sleep trace
total_sleep (sleep ms ∷ trace) = ms + total_sleep trace

count_posts-append : (t u : List Effect) → count_posts (t ++ u) ≡ count_posts t + count_posts u
count_posts-append [] u = omega arith
count_posts-append (post url token ∷ t) u = omega (arith, count_posts-append t u)
count_posts-append (sleep ms ∷ t) u = omega (arith, count_posts-append t u)

total_sleep-append : (t u : List Effect) → total_sleep (t ++ u) ≡ total_sleep t + total_sleep u
total_sleep-append [] u = omega arith
total_sleep-append (post url token ∷ t) u = omega (arith, total_sleep-append t u)
total_sleep-append (sleep ms ∷ t) u = omega (arith, total_sleep-append t u)

-- The waits of a run that never succeeds.
worst_sleep : ℕ → ℕ → ℕ
worst_sleep zero delay = 0
worst_sleep (suc retries) delay = delay + worst_sleep retries (min (delay * 2) 5000)

counts :
    (t : List Effect) (url token : Text) (delay : ℕ)
    → count_posts ((t ++ post url token ∷ []) ++ sleep delay ∷ []) ≡ count_posts t + 1
counts t url token delay = omega (
  arith,
  count_posts-append (t ++ post url token ∷ []) (sleep delay ∷ []),
  count_posts-append t (post url token ∷ []),
)

sleeps :
    (t : List Effect) (url token : Text) (delay : ℕ)
    → total_sleep ((t ++ post url token ∷ []) ++ sleep delay ∷ []) ≡ total_sleep t + delay
sleeps t url token delay = omega (
  arith,
  total_sleep-append (t ++ post url token ∷ []) (sleep delay ∷ []),
  total_sleep-append t (post url token ∷ []),
)

module _ {World : Type 0} (send : Send World) where
  -- One round of the loop.
  pub round_done :
      (retries delay : ℕ) (url token : Text) (net : Net World)
      → is_success (send url token net.world).0 ≡ true
      → sync_loop send (suc retries) delay url token net
        ≡ record { world = (send url token net.world).1; trace = net.trace ++ post url token ∷ [] }
  unfolding sync_loop
  round_done retries delay url token net done = rw (sync_loop, done)

  abbrev pub after_failure : ℕ → Text → Text → Net World → Net World
  after_failure delay url token net = record {
    world = (send url token net.world).1;
    trace = (net.trace ++ post url token ∷ []) ++ sleep delay ∷ [];
  }

  pub round_failed :
      (retries delay : ℕ) (url token : Text) (net : Net World)
      → is_success (send url token net.world).0 ≡ false
      → sync_loop send (suc retries) delay url token net
        ≡ sync_loop send retries
            (min (delay * 2) 5000)
            url
            token
            (after_failure delay url token net)
  unfolding sync_loop
  round_failed retries delay url token net failed = rw (sync_loop, failed)

  record Bounded (retries delay : ℕ) (before after : List Effect) : Type 0 where
    posts : count_posts after ≤ count_posts before + retries
    waits : total_sleep after ≤ total_sleep before + worst_sleep retries delay
    grows : count_posts before + min retries 1 ≤ count_posts after

  sync_loop-Bounded :
      (retries delay : ℕ) (url token : Text) (net : Net World)
      → Bounded retries delay net.trace (sync_loop send retries delay url token net).trace
  unfolding sync_loop worst_sleep
  sync_loop-Bounded zero delay url token net = record {
    posts = omega arith;
    waits = omega arith;
    grows = omega arith;
  }
  sync_loop-Bounded (suc retries) delay url token net =
      elim (Bool-cases (is_success (send url token net.world).0)) [
        | inl done ↦ rw (round_done retries delay url token net done) (record {
          posts = omega (arith, count_posts-append net.trace (post url token ∷ []));
          waits = omega (arith, total_sleep-append net.trace (post url token ∷ []));
          grows = omega (arith, count_posts-append net.trace (post url token ∷ []));
        })
        | inr failed ↦
            let next = after_failure delay url token net in
            let rest = sync_loop-Bounded retries (min (delay * 2) 5000) url token next in
            rw (round_failed retries delay url token net failed) (record {
              posts = omega (arith, rest.posts, counts net.trace url token delay);
              waits = omega (arith, rest.waits, sleeps net.trace url token delay);
              grows = omega (arith, rest.grows, counts net.trace url token delay);
            })
      ]

  -- A revocation is posted at least once and at most five times, and the daemon sleeps 12.5 seconds
  -- at most between the posts and after the last.
  pub sync_to_envoy_memory_bounds :
      (token : Option Text) (id : Text) (world : World)
      → let net = sync_to_envoy_memory send token id (record { world = world; trace = [] }) in
        (1 ≤ count_posts net.trace) × (count_posts net.trace ≤ 5) × (total_sleep net.trace ≤ 12500)
  unfolding sync_to_envoy_memory worst_sleep
  sync_to_envoy_memory_bounds token id world =
      let start : Net World = record { world = world; trace = [] } in
      let b = sync_loop-Bounded 5 500 (revoke_url id) (admin_token_of token) start in
      (omega (arith, b.grows), omega (arith, b.posts), omega (arith, b.waits))
