-- ===== src/Wallet/Bound.antt =====
-- dzta-wallet/src/lib.rs: the ciphertexts that a wallet was bound with are those that it gives back.
use dzta.Prelude.{
  Text, ok, ok-injective, map_err, map_err-eq-ok, ok_or, ok_or-eq-ok, ◌≡◌, refl, ap, sym, ◌∙◌,
  Option, none, some, [], utf8, text_eq_refl,
}
use dzta.Prelude.Int.{ℤ}
use dzta.Errors.{WalletError}
use dzta.Effects.{and_then-eq-ok, lift_then-eq-ok, map_failure-eq-ok, Io}
use dzta.Interfaces.Host.{FileSystem, Clock}
use dzta.Interfaces.Json.{Json, JsonBuilders, JsonLaws}
use dzta.Interfaces.Askar.{Askar, AskarLaws, Entry}
use dzta.Fabric.Credentials.Session.{session-Fresh, fetch-Fresh, committed}
use dzta.Fabric.Payload.RoundTrip.{get_object}
use dzta.Wallet.{
  Wallet, holding, acquire, initialize, store_of, session, fetch, put_entry, enclave_category,
}
use dzta.Wallet.Enclave.{
  ciphertexts_of, record_payload, store_enclave_vault_ciphertexts, indexed_str,
  fetch_enclave_vault_ciphertexts, provision_and_bind_vault,
}

-- What serde_json writes is read back.
pub record WrittenJson {Value : Type 0} (json : Json Value) (builders : JsonBuilders Value)
    : Type 0 where
  pub from_slice-to_vec :
      (v : Value) (bytes : Text) → builders.to_vec v ≡ ok bytes → json.from_slice bytes ≡ ok v

module _ {Value World : Type 0} (json : Json Value) (objects : JsonLaws json)
    (builders : JsonBuilders Value) (askar : Askar World) (laws : AskarLaws askar) where
  module _ (credential_id wallet_key master_seed : Text) (created_at : ℤ) where
    abbrev payload : Value
    payload = record_payload json builders askar credential_id wallet_key master_seed created_at

    abbrev str_of : Option Value → Option Text
    str_of o = elim o [ none ↦ none | some field ↦ json.as_str field ]

    key_field : json.get payload (utf8 "wallet_key_ciphertext") ≡ some (json.string wallet_key)
    unfolding record_payload utf8
    key_field = get_object json objects builders _ _ refl refl

    seed_field : json.get payload (utf8 "master_seed_ciphertext") ≡ some (json.string master_seed)
    unfolding record_payload utf8
    seed_field = get_object json objects builders _ _ refl refl

    key_found : indexed_str json builders askar payload "wallet_key_ciphertext" ≡ some wallet_key
    key_found = ap str_of key_field ∙ objects.as_str-string wallet_key

    seed_found : indexed_str json builders askar payload "master_seed_ciphertext" ≡ some master_seed
    seed_found = ap str_of seed_field ∙ objects.as_str-string master_seed

  module _ (wallet : Wallet askar) (store : askar.Store) (opened : store_of askar wallet ≡ ok store)
      (credential_id : Text) where
    -- The store has the two ciphertexts under the credential's id.
    pub record Bound (wallet_key master_seed : Text) (world : World) : Type 0 where
      pub entry : Entry
      pub created_at : ℤ
      pub present : laws.entries store world enclave_category credential_id ≡ some entry
      pub written :
          builders.to_vec
            (record_payload json builders askar credential_id wallet_key master_seed created_at)
          ≡ ok entry.value

    store_enclave-Bound :
        (clock : Clock World) (wallet_key master_seed : Text) (world last : World)
        → store_enclave_vault_ciphertexts json builders askar clock credential_id wallet_key
            master_seed wallet world
          ≡ (ok tt, last)
        → Bound wallet_key master_seed last
    unfolding store_enclave_vault_ciphertexts
    store_enclave-Bound clock wallet_key master_seed world last h =
        let h₀ = rw opened at h in
        let (s, w₁, starts, h₁) = and_then-eq-ok (session askar store world) _ h₀ in
        let bytes = builders.to_vec (
          record_payload json builders askar credential_id wallet_key master_seed (clock.now w₁)) in
        let (value, made, h₂) = lift_then-eq-ok (map_err _ bytes) w₁ _ h₁ in
        let entry : Entry = record { value = value; tags = [] } in
        let (_, w₃, inserts, h₃) =
          and_then-eq-ok (put_entry askar s enclave_category credential_id entry w₁) _ h₂ in
        let fresh =
          session-Fresh askar laws store s world w₁
            (map_failure-eq-ok _ (askar.session store world) starts) in
        let there =
          committed askar laws store s w₃ last fresh.owner
            (map_failure-eq-ok _ (askar.commit s w₃) h₃)
          ∙ laws.view-insert s enclave_category credential_id entry w₁ w₃ (
              map_failure-eq-ok _ (askar.insert s enclave_category credential_id entry w₁)
                inserts) in
        record {
          entry = entry;
          created_at = clock.now w₁;
          present =
              ap (λ e. e enclave_category credential_id) there
              ∙ rw (text_eq_refl enclave_category, text_eq_refl credential_id) refl;
          written = map_err-eq-ok _ bytes made;
        }

    Bound-ciphertexts_of :
        (written : WrittenJson json builders) (wallet_key master_seed : Text) (created_at : ℤ)
        (found : Text × Text) (kept : Entry) (o : Option Entry) (world last : World)
        → o ≡ some kept
        → builders.to_vec
            (record_payload json builders askar credential_id wallet_key master_seed created_at)
          ≡ ok kept.value
        → ciphertexts_of json builders askar credential_id o world ≡ (ok found, last)
        → found ≡ (wallet_key, master_seed)
    unfolding ciphertexts_of
    Bound-ciphertexts_of written wallet_key master_seed created_at found kept o world last present
          made h =
        let (entry, there, h₃) = lift_then-eq-ok (ok_or o _) world _ h in
        let (v, read, h₄) = lift_then-eq-ok (map_err _ (json.from_slice entry.value)) world _ h₃ in
        let (a, key, h₅) =
          lift_then-eq-ok (ok_or (indexed_str json builders askar v "wallet_key_ciphertext") _)
            world _ h₄ in
        let (b, seed, h₆) =
          lift_then-eq-ok (ok_or (indexed_str json builders askar v "master_seed_ciphertext") _)
            world _ h₅ in
        let fetched = sym (ok_or-eq-ok o _ there) ∙ present in
        let same_entry : entry ≡ kept = cc (fetched) in
        let parsed =
          sym (map_err-eq-ok _ (json.from_slice entry.value) read)
          ∙ ap (λ (x : Entry). json.from_slice x.value) same_entry
          ∙ written.from_slice-to_vec _ kept.value made in
        let same_value = ok-injective parsed in
        let keys =
          sym (ok_or-eq-ok (indexed_str json builders askar v "wallet_key_ciphertext") _ key)
          ∙ ap (λ x. indexed_str json builders askar x "wallet_key_ciphertext") same_value
          ∙ key_found credential_id wallet_key master_seed created_at in
        let seeds =
          sym (ok_or-eq-ok (indexed_str json builders askar v "master_seed_ciphertext") _ seed)
          ∙ ap (λ x. indexed_str json builders askar x "master_seed_ciphertext") same_value
          ∙ seed_found credential_id wallet_key master_seed created_at in
        let first : a ≡ wallet_key = cc (keys) in
        let second : b ≡ master_seed = cc (seeds) in
        sym (ok-injective (ap (λ r. r.0) h₆)) ∙ (λ i. (first i, second i))

    Bound-fetch_enclave :
        (written : WrittenJson json builders) (wallet_key master_seed : Text) (found : Text × Text)
        (world last : World)
        → Bound wallet_key master_seed world
        → fetch_enclave_vault_ciphertexts json builders askar credential_id wallet world
          ≡ (ok found, last)
        → found ≡ (wallet_key, master_seed)
    unfolding fetch_enclave_vault_ciphertexts
    Bound-fetch_enclave written wallet_key master_seed found world last bound h =
        let h₀ = rw opened at h in
        let (s, w₁, starts, h₁) = and_then-eq-ok (session askar store world) _ h₀ in
        let (o, w₂, asked, h₂) =
          and_then-eq-ok (fetch askar s enclave_category credential_id w₁) _ h₁ in
        let (_, known) =
          fetch-Fresh askar laws store s world w₁ w₂ enclave_category credential_id o
            (session-Fresh askar laws store s world w₁
              (map_failure-eq-ok _ (askar.session store world) starts))
            (map_failure-eq-ok _ (askar.fetch s enclave_category credential_id w₁) asked) in
        Bound-ciphertexts_of written wallet_key master_seed bound.created_at found bound.entry o w₂
          last (known ∙ bound.present) bound.written h₂

  -- What initializing a wallet leaves.
  initialize-Open :
      (files : FileSystem World) (pass_key : Text) (wallet wallet' : Wallet askar)
      (world last : World)
      → initialize askar files pass_key (wallet, world) ≡ (ok tt, (wallet', last))
      → (store : askar.Store) × (store_of askar wallet' ≡ ok store)
  unfolding initialize store_of
  initialize-Open files pass_key wallet wallet' world last h =
      let (store, held, acquired, h₁) =
        and_then-eq-ok (holding askar (acquire askar files pass_key) (wallet, world)) _ h in
      (store, ap (λ w. store_of askar w) (sym (ap (λ r. r.1.0) h₁)))

  holding-eq-ok :
      {A : Type 0} (action : Wallet askar → Io World WalletError A) (held : Wallet askar × World)
      {out : A} {wallet' : Wallet askar} {last : World}
      → holding askar action held ≡ (ok out, (wallet', last))
      → (action held.0 held.1 ≡ (ok out, last)) × (held.0 ≡ wallet')
  holding-eq-ok action held h = (λ i. ((h i).0, (h i).1.1), ap (λ r. r.1.0) h)

  -- The ciphertexts that a wallet fetches for a credential after it was provisioned are the two that it
  -- was bound with, while the entries of the stores are as the binding left them.
  pub fetch_enclave_vault_ciphertexts-provision_and_bind_vault :
      (written : WrittenJson json builders) (files : FileSystem World) (clock : Clock World)
      (credential_id wallet_key master_seed passkey : Text) (wallet bound : Wallet askar)
      (world middle later last : World) (found : Text × Text)
      → provision_and_bind_vault json builders askar files clock credential_id wallet_key
          master_seed passkey
          (wallet, world)
        ≡ (ok tt, (bound, middle))
      → ((store : askar.Store) → laws.entries store later ≡ laws.entries store middle)
      → fetch_enclave_vault_ciphertexts json builders askar credential_id bound later
        ≡ (ok found, last)
      → found ≡ (wallet_key, master_seed)
  unfolding provision_and_bind_vault
  fetch_enclave_vault_ciphertexts-provision_and_bind_vault written files clock credential_id
        wallet_key master_seed passkey wallet bound world middle later last found provisioned
        unchanged fetched =
      let (_, held, opens, binds) =
        and_then-eq-ok (initialize askar files passkey (wallet, world)) _ provisioned in
      let (stores, same) =
        holding-eq-ok
          (store_enclave_vault_ciphertexts json builders askar clock credential_id wallet_key
            master_seed)
          held binds in
      let (store, opened) = initialize-Open files passkey wallet held.0 world held.1 opens in
      let kept =
        store_enclave-Bound held.0 store opened credential_id clock wallet_key master_seed held.1
          middle stores in
      Bound-fetch_enclave held.0 store opened credential_id written wallet_key master_seed found
        later last
        (record {
          entry = kept.entry;
          created_at = kept.created_at;
          present = ap (λ e. e enclave_category credential_id) (unchanged store) ∙ kept.present;
          written = kept.written;
        })
        (ap (λ w. fetch_enclave_vault_ciphertexts json builders askar credential_id w later) same
          ∙ fetched)
