-- ===== src/Daemon/Cache.antt =====
-- What the cache and the posts hold after a block's events.
use dzta.Prelude.{
  Bool-cases, inl, inr, ◌≡◌, refl, Text, Result, Option, none, some, Bool, true, false, ◌||◌, List,
  [], ◌∷◌, arith, text_eq, text_eq_iff, any,
}
use dzta.Daemon.{
  RevocationEventPayload, ChaincodeEvent, FabricRevocationListener, Send, contains, insert, revoke,
  revoked_id, process_chaincode_events_response,
}

absorbed :
    (id j : Text) (cache : List Text)
    → contains id cache ≡ true
    → contains j cache ≡ (text_eq id j || contains j cache)
absorbed id j cache present = elim (Bool-cases (text_eq id j)) [
  | inl same ↦ rw (same, ← (text_eq_iff id j).0 same) present
  | inr other ↦ rw other
]

contains-insert :
    (id j : Text) (cache : List Text)
    → contains j (insert id cache) ≡ (text_eq id j || contains j cache)
contains-insert id j cache = elim (Bool-cases (contains id cache)) [
  | inr absent ↦ rw absent
  | inl present ↦ rw present (absorbed id j cache present)
]

abbrev pub is_some_text : Option Text → Text → Bool
is_some_text none id = false
is_some_text (some j) id = text_eq j id

module _ {World : Type 0} (send : Send World) (token : Option Text) where
  contains-revoke :
      (target : Option Text) (listener : FabricRevocationListener World) (id : Text)
      → contains id (revoke send token target listener).revocation_cache
        ≡ (is_some_text target id || contains id listener.revocation_cache)
  unfolding revoke
  contains-revoke none listener id = refl
  contains-revoke (some j) listener id = contains-insert j id listener.revocation_cache

module _ {World : Type 0} (payload_from_slice : Text → Result Text RevocationEventPayload)
    (send : Send World) (token : Option Text) where
  -- After a block the cache holds an id exactly when it held it before, or an event revokes it.
  pub contains-process :
      (events : List ChaincodeEvent) (listener : FabricRevocationListener World) (id : Text)
      → contains id
          (process_chaincode_events_response payload_from_slice send token events
            listener).revocation_cache
        ≡ (contains id listener.revocation_cache
            || any (λ e. is_some_text (revoked_id payload_from_slice e) id) events)
  unfolding process_chaincode_events_response
  contains-process [] listener id = ground arith
  contains-process (event ∷ events) listener id =
      let next = revoke send token (revoked_id payload_from_slice event) listener in
      ground (
        arith,
        contains-process events next id,
        contains-revoke send token (revoked_id payload_from_slice event) listener id,
      )
