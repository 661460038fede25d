-- ===== src/Fabric/Credentials/Operations.antt =====
-- What the operations on credentials do to the entries of the store.
use dzta.Prelude.{Text, ok, ◌≡◌, ap, sym, ◌∙◌, none, some, [], ◌∷◌, utf8, List}
use dzta.Errors.{credential_not_found}
use dzta.Effects.{and_then-eq-ok, map_failure, map_failure-eq-ok, lift-eq-ok}
use dzta.Interfaces.Host.{Clock}
use dzta.Interfaces.Crypto.{Sha256, Aes256Gcm}
use dzta.Interfaces.Json.{Json, JsonBuilders}
use dzta.Interfaces.Askar.{Askar, AskarLaws, Entry, update}
use dzta.Shared.WalletRecord.{decrypt_wallet_record}
use dzta.Fabric.Credentials.{
  CredentialManager, category, open_store, open_session, fetch_entry, not_found,
  mark_credential_revoked, fetch_raw_encrypted_record, get_credential_metadata_from_askar,
  is_revoked,
}
use dzta.Fabric.Credentials.Session.{open_session-Fresh, fetch_entry-Fresh, committed}

abbrev pub stored_tags : Text → List (Text × Text)
stored_tags at_time = (utf8 "stored_at", at_time) ∷ (utf8 "revoked", utf8 "false") ∷ []

abbrev pub revoked_tags : Text → List (Text × Text)
revoked_tags at_time = (utf8 "revoked", utf8 "true") ∷ (utf8 "revoked_at", at_time) ∷ []

module _ {World Crypter : Type 0} (askar : Askar World) (laws : AskarLaws askar) (sha : Sha256)
    (aes : Aes256Gcm Crypter) where
  -- A credential that was absent has been added, under an envelope that opens to its text.
  pub record Stored (store : askar.Store) (passphrase credential_id plaintext : Text)
      (world last : World) : Type 0 where
    pub envelope : Text
    pub at_time : Text
    pub absent : laws.entries store world category credential_id ≡ none
    pub added :
        laws.entries store last
        ≡ update category credential_id
            (record { value = envelope; tags = stored_tags at_time })
            (laws.entries store world)
    pub opens : decrypt_wallet_record sha aes envelope passphrase ≡ ok plaintext

  -- A credential that was there has its tags replaced.
  pub record Marked (store : askar.Store) (credential_id : Text) (world last : World) : Type 0 where
    pub entry : Entry
    pub at_time : Text
    pub present : laws.entries store world category credential_id ≡ some entry
    pub replaced :
        laws.entries store last
        ≡ update category credential_id
            (record { value = entry.value; tags = revoked_tags at_time })
            (laws.entries store world)

  -- A credential that was there has been read, and nothing was changed.
  pub record Read (store : askar.Store) (credential_id : Text) (entry : Entry) (world last : World)
      : Type 0 where
    pub present : laws.entries store world category credential_id ≡ some entry
    pub same : laws.entries store last ≡ laws.entries store world

  module _ (manager : CredentialManager askar) (store : askar.Store)
      (opened : open_store askar manager ≡ ok store) where
    pub mark_credential_revoked-Marked :
        (clock : Clock World) (credential_id : Text) (world last : World)
        → mark_credential_revoked askar clock manager credential_id world ≡ (ok tt, last)
        → Marked store credential_id world last
    unfolding mark_credential_revoked
    mark_credential_revoked-Marked clock credential_id world last h =
        let h₀ = rw opened at h in
        let (s, w₁, starts, h₁) = and_then-eq-ok (open_session askar store world) _ h₀ in
        let (entry, w₂, fetched, h₂) =
          and_then-eq-ok
            (fetch_entry askar "Fetch failed: " credential_id (not_found credential_id) s w₁) _
            h₁ in
        let tags = revoked_tags (clock.now_rfc3339 w₂) in
        let marked : Entry = record { value = entry.value; tags = tags } in
        let (_, w₃, written, h₃) =
          and_then-eq-ok (map_failure _ (askar.replace s category credential_id marked w₂)) _ h₂ in
        let (fresh, present) =
          fetch_entry-Fresh askar laws "Fetch failed: " store s world w₁ w₂ credential_id
            (not_found credential_id) entry (open_session-Fresh askar laws store s world w₁ starts)
            fetched in
        let wrote =
          laws.view-replace s category credential_id marked w₂ w₃
            (map_failure-eq-ok _ (askar.replace s category credential_id marked w₂) written) in
        record {
          entry = entry;
          at_time = clock.now_rfc3339 w₂;
          present = present;
          replaced =
              committed askar laws store s w₃ last fresh.owner
                (map_failure-eq-ok _ (askar.commit s w₃) h₃)
              ∙ wrote
              ∙ ap (λ e. update category credential_id marked e) fresh.sees;
        }

    pub fetch_raw_encrypted_record-Read :
        (credential_id value : Text) (world last : World)
        → fetch_raw_encrypted_record askar manager credential_id world ≡ (ok value, last)
        → (entry : Entry) × (entry.value ≡ value) × Read store credential_id entry world last
    unfolding fetch_raw_encrypted_record
    fetch_raw_encrypted_record-Read credential_id value world last h =
        let h₀ = rw opened at h in
        let (s, w₁, starts, h₁) = and_then-eq-ok (open_session askar store world) _ h₀ in
        let (entry, w₂, fetched, h₂) =
          and_then-eq-ok
            (fetch_entry askar "Raw record retrieval failed: " credential_id
              (credential_not_found credential_id) s w₁)
            _ h₁ in
        let (fresh, present) =
          fetch_entry-Fresh askar laws "Raw record retrieval failed: " store s world w₁ w₂
            credential_id (credential_not_found credential_id) entry
            (open_session-Fresh askar laws store s world w₁ starts) fetched in
        let (gave, ends) = lift-eq-ok (ok entry.value) h₂ in
        (
          entry,
          cc (gave),
          record {
            present = present;
            same = ap (λ w. laws.entries store w) (sym ends) ∙ fresh.keeps;
          },
        )

    pub get_credential_metadata-Read :
        {Value : Type 0} (json : Json Value) (builders : JsonBuilders Value) (credential_id : Text)
        (world last : World) (v : Value)
        → get_credential_metadata_from_askar askar json builders manager credential_id world
          ≡ (ok v, last)
        → (entry : Entry) × (json.object
              ((utf8 "revoked", builders.bool (is_revoked entry.tags)) ∷ [])
            ≡ v)
          × Read store credential_id entry world last
    unfolding get_credential_metadata_from_askar
    get_credential_metadata-Read json builders credential_id world last v h =
        let h₀ = rw opened at h in
        let (s, w₁, starts, h₁) = and_then-eq-ok (open_session askar store world) _ h₀ in
        let (entry, w₂, fetched, h₂) =
          and_then-eq-ok
            (fetch_entry askar "Metadata retrieval failed: " credential_id (not_found credential_id)
              s w₁)
            _ h₁ in
        let (fresh, present) =
          fetch_entry-Fresh askar laws "Metadata retrieval failed: " store s world w₁ w₂
            credential_id (not_found credential_id) entry
            (open_session-Fresh askar laws store s world w₁ starts) fetched in
        let (gave, ends) = lift-eq-ok (ok _) h₂ in
        (
          entry,
          cc (gave),
          record {
            present = present;
            same = ap (λ w. laws.entries store w) (sym ends) ∙ fresh.keeps;
          },
        )
