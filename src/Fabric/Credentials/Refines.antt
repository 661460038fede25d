-- ===== src/Fabric/Credentials/Refines.antt =====
-- The credential manager's store implements the specification, whatever the nonces and the times.
use mathlib.Core.Option
use mathlib.Core.Path.{fun_ext}
use dzta.Prelude.{
  Text, ok, to_option, ◌≡◌, refl, ap, sym, ◌∙◌, some, true, false, List, [], ◌∷◌, map, utf8,
  text_eq, text_eq_refl, Bool-cases, inl, inr,
}
use dzta.Errors.{WalletError}
use dzta.Effects.{Io, and_then-eq-ok, ◌>>=◌}
use dzta.Interfaces.Host.{Clock}
use dzta.Interfaces.Crypto.{Sha256, Aes256Gcm, AeadLaws}
use dzta.Interfaces.Json.{Json, JsonBuilders}
use dzta.Interfaces.Askar.{Askar, AskarLaws, Random, RandomLaws, Entry, Entries, update}
use dzta.Shared.WalletRecord.{decrypt_wallet_record}
use dzta.Fabric.Credentials.{
  CredentialManager, category, open_store, get_askar_passphrase, store_credential,
  mark_credential_revoked, is_revoked, get_credential_metadata_from_askar,
}
use dzta.Fabric.Credentials.Operations.{
  mark_credential_revoked-Marked, stored_tags, revoked_tags, get_credential_metadata-Read,
}
use dzta.Fabric.Credentials.Sealing.{store_credential-Stored}
use dzta.Fabric.Credentials.Specification.{
  Held, Holdings, set, Command, Step, stores, revokes, Steps, done, next, Steps-revoked,
}

-- A call of the manager that changes a credential.
pub data Call (Value : Type 0) : Type 0 where
  store_document : Text → Value → Call Value
  mark_revoked : Text → Call Value

abbrev pub command_of : {Value : Type 0} → Json Value → Call Value → Command
command_of json (store_document id document) = Command.store id (json.to_string document)
command_of json (mark_revoked id) = Command.revoke id

module _ {Crypter : Type 0} (sha : Sha256) (aes : Aes256Gcm Crypter) (passphrase : Text) where
  -- What an entry holds under a passphrase.
  abbrev pub held_in : Entry → Held
  held_in entry = record {
    document = to_option (decrypt_wallet_record sha aes entry.value passphrase);
    revoked = is_revoked entry.tags;
  }

  abbrev pub holdings_of : Entries → Holdings
  holdings_of entries id = Option.map held_in (entries category id)

  holdings_of-update :
      (id : Text) (entry : Entry) (held : Held) (entries : Entries)
      → held_in entry ≡ held
      → holdings_of (update category id entry entries) ≡ set id held (holdings_of entries)
  holdings_of-update id entry held entries e = fun_ext (λ j. at j)
    where
      at :
          (j : Text)
          → holdings_of (update category id entry entries) j ≡ set id held (holdings_of entries) j
      at j = elim (Bool-cases (text_eq id j)) [
        | inl same ↦ rw (text_eq_refl category, same, e) refl
        | inr other ↦ rw (text_eq_refl category, other) refl
      ]

revoked-stored_tags : (at_time : Text) → is_revoked (stored_tags at_time) ≡ false
unfolding is_revoked utf8
revoked-stored_tags at_time = refl

revoked-revoked_tags : (at_time : Text) → is_revoked (revoked_tags at_time) ≡ true
unfolding is_revoked utf8
revoked-revoked_tags at_time = refl

module _ {World Crypter Value : Type 0} (askar : Askar World) (laws : AskarLaws askar)
    (clock : Clock World) (random : Random World) (randomness : RandomLaws random askar laws)
    (sha : Sha256) (aes : Aes256Gcm Crypter) (aead : AeadLaws aes) (json : Json Value)
    (display : WalletError → Text) (manager : CredentialManager askar) where
  perform : Call Value → Io World WalletError (Unit {0})
  perform (store_document id document) =
      store_credential askar sha aes json display clock random manager id document
  perform (mark_revoked id) = mark_credential_revoked askar clock manager id

  unfoldable pub run : List (Call Value) → Io World WalletError (Unit {0})
  unfolding perform
  run [] world = (ok tt, world)
  run (call ∷ calls) world = (perform call >>= λ _. run calls) world

  module _ (store : askar.Store) (passphrase : Text) (opened : open_store askar manager ≡ ok store)
      (cached : get_askar_passphrase askar manager ≡ ok passphrase) where
    -- What the store holds in a world.
    abbrev pub credentials : World → Holdings
    credentials world = holdings_of sha aes passphrase (laws.entries store world)

    perform-Step :
        (call : Call Value) (world last : World)
        → perform call world ≡ (ok tt, last)
        → Step (credentials world) (credentials last) (command_of json call)
    unfolding perform
    perform-Step (store_document id document) world last h =
        let s =
          store_credential-Stored askar laws sha aes aead json display manager store passphrase
            opened cached clock random randomness id document world last h in
        let entry : Entry = record { value = s.envelope; tags = stored_tags s.at_time } in
        let held : Held = record { document = some (json.to_string document); revoked = false } in
        let holds : held_in sha aes passphrase entry ≡ held =
          rw (s.opens, revoked-stored_tags s.at_time) refl in
        stores id (json.to_string document) (rw s.absent refl) (
          ap (holdings_of sha aes passphrase) s.added
          ∙ holdings_of-update sha aes passphrase id entry held (laws.entries store world) holds)
    perform-Step (mark_revoked id) world last h =
        let m =
          mark_credential_revoked-Marked askar laws sha aes manager store opened clock id world last
            h in
        let entry : Entry = record { value = m.entry.value; tags = revoked_tags m.at_time } in
        let before = held_in sha aes passphrase m.entry in
        let held : Held = record before { revoked = true } in
        let holds : held_in sha aes passphrase entry ≡ held =
          rw (revoked-revoked_tags m.at_time) refl in
        revokes id before (rw m.present refl) (
          ap (holdings_of sha aes passphrase) m.replaced
          ∙ holdings_of-update sha aes passphrase id entry held (laws.entries store world) holds)

    -- Any sequence of stores and revocations that the manager carries out is a sequence of steps of the
    -- specification, between what the store holds before and after it: the documents are those that the
    -- envelopes open to under the passphrase, and the marks are those of the tags.
    pub run-Steps :
        (calls : List (Call Value)) (world last : World)
        → run calls world ≡ (ok tt, last)
        → Steps (credentials world) (credentials last) (map (command_of json) calls)
    unfolding run
    run-Steps [] world last h = done (ap (λ r. credentials r.1) h)
    run-Steps (call ∷ calls) world last h =
        let (_, middle, first, rest) = and_then-eq-ok (perform call world) _ h in
        next (perform-Step call world middle first) (run-Steps calls middle last rest)

    -- A credential that is revoked in the store is still revoked after any sequence of stores and
    -- revocations that succeeds, and its metadata, where it can be read, say so; its document is the same.
    pub run-revoked :
        (builders : JsonBuilders Value) (calls : List (Call Value)) (world last end : World)
        (id : Text) (document : Option.Option Text) (v : Value)
        → run calls world ≡ (ok tt, last)
        → credentials world id ≡ some (record { document = document; revoked = true })
        → get_credential_metadata_from_askar askar json builders manager id last ≡ (ok v, end)
        → (credentials last id ≡ some (record { document = document; revoked = true }))
          × (v ≡ json.object ((utf8 "revoked", builders.bool true) ∷ []))
    run-revoked builders calls world last end id document v ran there read =
        let still = Steps-revoked id document (run-Steps calls world last ran) there in
        let (entry, shown, r) =
          get_credential_metadata-Read askar laws sha aes manager store opened json builders id last
            end v read in
        let same = sym (ap (Option.map (held_in sha aes passphrase)) r.present) ∙ still in
        let mark : is_revoked entry.tags ≡ true = cc (same) in (still, sym shown ∙ rw mark refl)
