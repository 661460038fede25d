-- ===== src/Fabric/Credentials/Seed.antt =====
-- get_or_create_zkp_secret_seed gives one seed for the life of a store.
use dzta.Prelude.{
  Text, ok, ok-injective, ◌≡◌, refl, ap, sym, ◌∙◌, Option, none, some, [], text_eq_refl, length,
}
use dzta.Effects.{and_then-eq-ok, map_failure, map_failure-eq-ok, lift-eq-ok}
use dzta.Interfaces.Askar.{Askar, AskarLaws, Random, RandomLaws, Entry}
use dzta.Fabric.Credentials.{
  CredentialManager, open_store, open_session, seed_category, seed_name, seed_of,
  get_or_create_zkp_secret_seed, storage_failure,
}
use dzta.Fabric.Credentials.Session.{Fresh, open_session-Fresh, fetch-Fresh, committed}

module _ {World : Type 0} (askar : Askar World) (laws : AskarLaws askar) (random : Random World)
    (randomness : RandomLaws random askar laws) (store : askar.Store) where
  -- The store has that seed.
  pub record HasSeed (seed : Text) (world : World) : Type 0 where
    pub entry : Entry
    pub present : laws.entries store world seed_category seed_name ≡ some entry
    pub value : entry.value ≡ seed

  created :
      (s : askar.Session) (seed : Text) (start now last : World)
      → Fresh askar laws store s start now
      → seed_of askar random s none now ≡ (ok seed, last)
      → HasSeed seed last × (length seed ≡ 32)
  unfolding seed_of
  created s seed start now last fresh h =
      let (new_seed, w₁, drawn, h₁) =
        and_then-eq-ok (map_failure _ (random.getrandom 32 now)) _ h in
      let entry : Entry = record { value = new_seed; tags = [] } in
      let (_, w₂, written, h₂) =
        and_then-eq-ok (map_failure _ (askar.insert s seed_category seed_name entry w₁)) _ h₁ in
      let (_, w₃, kept, h₃) = and_then-eq-ok (map_failure _ (askar.commit s w₂)) _ h₂ in
      let (same, ends) = lift-eq-ok (ok new_seed) h₃ in
      let value : new_seed ≡ seed = ok-injective same in
      let there =
        committed askar laws store s w₂ w₃ fresh.owner
          (map_failure-eq-ok _ (askar.commit s w₂) kept)
        ∙ laws.view-insert s seed_category seed_name entry w₁ w₂
            (map_failure-eq-ok _ (askar.insert s seed_category seed_name entry w₁) written) in
      let now_there =
        ap (λ w. laws.entries store w seed_category seed_name) (sym ends)
        ∙ ap (λ e. e seed_category seed_name) there
        ∙ rw (text_eq_refl seed_category, text_eq_refl seed_name) refl in
      (
        record { entry = entry; present = now_there; value = value },
        ap length (sym value)
            ∙ randomness.length-getrandom 32 new_seed now w₁
                (map_failure-eq-ok _ (random.getrandom 32 now) drawn),
      )

  module _ (manager : CredentialManager askar) (opened : open_store askar manager ≡ ok store) where
    found_or_created :
        (seed : Text) (world last : World)
        → get_or_create_zkp_secret_seed askar random manager world ≡ (ok seed, last)
        → (s : askar.Session) × (found : Option Entry) × (now : World) × Fresh askar laws store s
            world now
          × (found ≡ laws.entries store world seed_category seed_name)
          × (seed_of askar random s found now ≡ (ok seed, last))
    unfolding get_or_create_zkp_secret_seed
    found_or_created seed world last h =
        let h₀ = rw opened at h in
        let (s, w₁, starts, h₁) = and_then-eq-ok (open_session askar store world) _ h₀ in
        let (found, w₂, asked, h₂) =
          and_then-eq-ok
            (map_failure (storage_failure "Fetch failed: ")
              (askar.fetch s seed_category seed_name w₁))
            _ h₁ in
        let (fresh, known) =
          fetch-Fresh askar laws store s world w₁ w₂ seed_category seed_name found
            (open_session-Fresh askar laws store s world w₁ starts)
            (map_failure-eq-ok _ (askar.fetch s seed_category seed_name w₁) asked) in
        (s, found, w₂, fresh, known, h₂)

    settled :
        (s : askar.Session) (found : Option Entry) (seed : Text) (start now last : World)
        → Fresh askar laws store s start now
        → found ≡ laws.entries store start seed_category seed_name
        → seed_of askar random s found now ≡ (ok seed, last)
        → HasSeed seed last
    unfolding seed_of
    settled s none seed start now last fresh known h = (created s seed start now last fresh h).0
    settled s (some entry) seed start now last fresh known h =
        let (gave, ends) = lift-eq-ok (ok entry.value) h in
        record {
          entry = entry;
          present =
              ap (λ w. laws.entries store w seed_category seed_name) (sym ends)
              ∙ ap (λ e. e seed_category seed_name) fresh.keeps
              ∙ sym known;
          value = ok-injective gave;
        }

    get_or_create-HasSeed :
        (seed : Text) (world last : World)
        → get_or_create_zkp_secret_seed askar random manager world ≡ (ok seed, last)
        → HasSeed seed last
    get_or_create-HasSeed seed world last h =
        let (s, found, now, fresh, known, h₁) = found_or_created seed world last h in
        settled s found seed world now last fresh known h₁

    HasSeed-get_or_create :
        (seed again : Text) (world last : World)
        → HasSeed seed world
        → get_or_create_zkp_secret_seed askar random manager world ≡ (ok again, last)
        → again ≡ seed
    unfolding seed_of
    HasSeed-get_or_create seed again world last has h =
        let (s, found, now, fresh, known, h₁) = found_or_created again world last h in
        let h₂ = rw (known, has.present) at h₁ in
        let (gave, _) = lift-eq-ok (ok has.entry.value) h₂ in sym (ok-injective gave) ∙ has.value

    -- The seed that the first call returns is in the store afterwards, and a call in any later world in
    -- which the store's entries are the same returns it again: a second seed is never drawn.
    pub get_or_create_zkp_secret_seed_idem :
        (seed again : Text) (world middle later last : World)
        → get_or_create_zkp_secret_seed askar random manager world ≡ (ok seed, middle)
        → laws.entries store later ≡ laws.entries store middle
        → get_or_create_zkp_secret_seed askar random manager later ≡ (ok again, last)
        → (again ≡ seed) × HasSeed seed last
    get_or_create_zkp_secret_seed_idem seed again world middle later last first unchanged second =
        let has = get_or_create-HasSeed seed world middle first in
        let still : HasSeed seed later = record {
          entry = has.entry;
          present = ap (λ e. e seed_category seed_name) unchanged ∙ has.present;
          value = has.value;
        } in
        let same = HasSeed-get_or_create seed again later last still second in
        let kept = get_or_create-HasSeed again later last second in
        (same, record { entry = kept.entry; present = kept.present; value = kept.value ∙ same })
