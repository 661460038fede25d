-- ===== src/Fabric/Credentials/Sealing.antt =====
-- Storing a credential and retrieving it: the operations that encrypt and decrypt.
use dzta.Prelude.{Text, ok, map_err, map_err-eq-ok, ◌≡◌, ap, sym, ◌∙◌, Result-cases, inl, inr}
use dzta.Errors.{WalletError}
use dzta.Effects.{and_then-eq-ok, map_failure, map_failure-eq-ok, lift, lift-eq-ok}
use dzta.Interfaces.Host.{Clock}
use dzta.Interfaces.Crypto.{Sha256, Aes256Gcm, AeadLaws}
use dzta.Interfaces.Json.{Json}
use dzta.Interfaces.Askar.{Askar, AskarLaws, Random, RandomLaws, Entry, update}
use dzta.Shared.WalletRecord.{encrypt_wallet_record, decrypt_wallet_record}
use dzta.Shared.WalletRecord.RoundTrip.{decrypt-encrypt_wallet_record}
use dzta.Fabric.Credentials.{
  CredentialManager, category, open_store, get_askar_passphrase, open_session, fetch_entry,
  not_found, store_credential, retrieve_credential, encrypt_now,
}
use dzta.Fabric.Credentials.Session.{open_session-Fresh, fetch_entry-Fresh, committed}
use dzta.Fabric.Credentials.Operations.{Stored, Read, stored_tags}

module _ {World Crypter Value : Type 0} (askar : Askar World) (laws : AskarLaws askar)
    (sha : Sha256) (aes : Aes256Gcm Crypter) (aead : AeadLaws aes) (json : Json Value)
    (display : WalletError → Text) where
  drawn :
      (random : Random World) (plaintext passphrase envelope : Text) (world next : World)
      → encrypt_now askar sha aes json display random plaintext passphrase world
        ≡ (ok envelope, next)
      → (nonce : Text) × (random.getrandom 12 world ≡ (ok nonce, next))
        × (encrypt_wallet_record sha aes (ok nonce) plaintext passphrase ≡ ok envelope)
  unfolding encrypt_wallet_record
  drawn random plaintext passphrase envelope world next h =
      let made =
        map_err-eq-ok _
          (encrypt_wallet_record sha aes (random.getrandom 12 world).0 plaintext passphrase)
          (ap (λ r. r.0) h) in
      elim (Result-cases (random.getrandom 12 world).0) [
        | inl (nonce, e) ↦ (nonce, λ i. (e i, (ap (λ r. r.1) h) i), rw e at made)
        | inr (failure, e) ↦ absurd (let f = rw e at made in cc (f))
      ]

  -- The envelope that was drawn opens to its text, and drawing it left the store alone.
  sealed :
      (random : Random World) (randomness : RandomLaws random askar laws) (store : askar.Store)
      (plaintext passphrase envelope : Text) (world next : World)
      → encrypt_now askar sha aes json display random plaintext passphrase world
        ≡ (ok envelope, next)
      → (decrypt_wallet_record sha aes envelope passphrase ≡ ok plaintext)
        × (laws.entries store next ≡ laws.entries store world)
  sealed random randomness store plaintext passphrase envelope world next h =
      let (nonce, draws, encrypts) = drawn random plaintext passphrase envelope world next h in
      (
        decrypt-encrypt_wallet_record sha aes aead nonce plaintext passphrase envelope
            (randomness.length-getrandom 12 nonce world next draws) encrypts,
        randomness.entries-getrandom 12 nonce store world next draws,
      )

  module _ (manager : CredentialManager askar) (store : askar.Store) (passphrase : Text)
      (opened : open_store askar manager ≡ ok store)
      (cached : get_askar_passphrase askar manager ≡ ok passphrase) where
    pub store_credential-Stored :
        (clock : Clock World) (random : Random World) (randomness : RandomLaws random askar laws)
        (credential_id : Text) (credential_data : Value) (world last : World)
        → store_credential askar sha aes json display clock random manager credential_id
            credential_data world
          ≡ (ok tt, last)
        → Stored askar laws sha aes store passphrase credential_id
            (json.to_string credential_data)
            world
            last
    unfolding store_credential
    store_credential-Stored clock random randomness credential_id credential_data world last h =
        let h₀ = rw (opened, cached) at h in
        let plaintext = json.to_string credential_data in
        let (envelope, w₁, encrypts, h₁) =
          and_then-eq-ok (encrypt_now askar sha aes json display random plaintext passphrase world)
            _ h₀ in
        let (opens, untouched) =
          sealed random randomness store plaintext passphrase envelope world w₁ encrypts in
        let (s, w₂, starts, h₂) = and_then-eq-ok (open_session askar store w₁) _ h₁ in
        let fresh = open_session-Fresh askar laws store s w₁ w₂ starts in
        let entry : Entry = record {
          value = envelope;
          tags = stored_tags (clock.now_rfc3339 w₂);
        } in
        let (_, w₃, written, h₃) =
          and_then-eq-ok (map_failure _ (askar.insert s category credential_id entry w₂)) _ h₂ in
        let inserted =
          map_failure-eq-ok _ (askar.insert s category credential_id entry w₂) written in
        let before = fresh.sees ∙ untouched in
        record {
          envelope = envelope;
          at_time = clock.now_rfc3339 w₂;
          absent =
              ap (λ e. e category credential_id) (sym before)
              ∙ laws.insert-absent s category credential_id entry w₂ w₃ inserted;
          added =
              committed askar laws store s w₃ last fresh.owner
                (map_failure-eq-ok _ (askar.commit s w₃) h₃)
              ∙ laws.view-insert s category credential_id entry w₂ w₃ inserted
              ∙ ap (λ e. update category credential_id entry e) before;
          opens = opens;
        }

    pub retrieve_credential-Read :
        (credential_id : Text) (v : Value) (world last : World)
        → retrieve_credential askar sha aes json display manager credential_id world ≡ (ok v, last)
        → (entry : Entry) × (cleartext : Text) × (decrypt_wallet_record sha aes entry.value
              passphrase
            ≡ ok cleartext)
          × (json.from_slice cleartext ≡ ok v)
          × Read askar laws sha aes store credential_id entry world last
    unfolding retrieve_credential
    retrieve_credential-Read credential_id v world last h =
        let h₀ = rw (opened, cached) at h in
        let (s, w₁, starts, h₁) = and_then-eq-ok (open_session askar store world) _ h₀ in
        let (entry, w₂, fetched, h₂) =
          and_then-eq-ok
            (fetch_entry askar "Credential retrieval failed: " credential_id
              (not_found credential_id) s w₁)
            _ h₁ in
        let (fresh, present) =
          fetch_entry-Fresh askar laws "Credential retrieval failed: " store s world w₁ w₂
            credential_id (not_found credential_id) entry
            (open_session-Fresh askar laws store s world w₁ starts) fetched in
        let (cleartext, w₃, decrypts, h₃) =
          and_then-eq-ok
            (lift (map_err _ (decrypt_wallet_record sha aes entry.value passphrase)) w₂) _ h₂ in
        let (plain, same₁) = lift-eq-ok (map_err _ _) decrypts in
        let (parsed, same₂) = lift-eq-ok (map_err _ (json.from_slice cleartext)) h₃ in
        (
          entry,
          cleartext,
          map_err-eq-ok _ _ plain,
          map_err-eq-ok _ _ parsed,
          record {
            present = present;
            same = ap (λ w. laws.entries store w) (sym (same₁ ∙ same₂)) ∙ fresh.keeps;
          },
        )
