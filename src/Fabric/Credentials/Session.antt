-- ===== src/Fabric/Credentials/Session.antt =====
-- What the calls of a session tell about the entries of its store.
use dzta.Prelude.{Text, String, ok, ok_or, ok_or-eq-ok, ◌≡◌, ap, sym, ◌∙◌, Option, some}
use dzta.Errors.{WalletError}
use dzta.Effects.{and_then-eq-ok, map_failure, map_failure-eq-ok, lift-eq-ok}
use dzta.Interfaces.Askar.{Askar, AskarLaws, Entry}
use dzta.Fabric.Credentials.{category, open_session, fetch_entry, storage_failure}

module _ {World : Type 0} (askar : Askar World) (laws : AskarLaws askar) where
  -- In `now`, the session sees the entries that the store had in `start`, and the store still has them.
  pub record Fresh (store : askar.Store) (s : askar.Session) (start now : World) : Type 0 where
    pub owner : laws.store_of s ≡ store
    pub sees : laws.view s now ≡ laws.entries store start
    pub keeps : laws.entries store now ≡ laws.entries store start

  pub session-Fresh :
      (store : askar.Store) (s : askar.Session) (world now : World)
      → askar.session store world ≡ (ok s, now)
      → Fresh store s world now
  session-Fresh store s world now opened = record {
    owner = laws.store_of-session store s world now opened;
    sees = laws.view-session store s world now opened;
    keeps = laws.entries-session store s world now opened;
  }

  pub open_session-Fresh :
      (store : askar.Store) (s : askar.Session) (world now : World)
      → open_session askar store world ≡ (ok s, now)
      → Fresh store s world now
  open_session-Fresh store s world now h =
      session-Fresh store s world now (map_failure-eq-ok _ (askar.session store world) h)

  pub fetch-Fresh :
      (store : askar.Store) (s : askar.Session) (start now next : World) (c name : Text)
      (found : Option Entry)
      → Fresh store s start now
      → askar.fetch s c name now ≡ (ok found, next)
      → Fresh store s start next × (found ≡ laws.entries store start c name)
  fetch-Fresh store s start now next c name found fresh h =
      let kept = laws.entries-fetch s c name found now next h in
      (
        record {
          owner = fresh.owner;
          sees = laws.view-fetch s c name found now next h ∙ fresh.sees;
          keeps =
              ap (λ o. laws.entries o next) (sym fresh.owner)
              ∙ kept
              ∙ ap (λ o. laws.entries o now) fresh.owner
              ∙ fresh.keeps;
        },
        laws.fetched s c name found now next h ∙ ap (λ e. e c name) fresh.sees,
      )

  -- An entry that was fetched in a new session is the store's.
  pub fetch_entry-Fresh :
      (message : String) (store : askar.Store) (s : askar.Session) (start now next : World)
      (credential_id : Text) (missing : WalletError) (entry : Entry)
      → Fresh store s start now
      → fetch_entry askar message credential_id missing s now ≡ (ok entry, next)
      → Fresh store s start next × (laws.entries store start category credential_id ≡ some entry)
  fetch_entry-Fresh message store s start now next credential_id missing entry fresh h =
      let (found, w, asked, rest) =
        and_then-eq-ok
          (map_failure (storage_failure message) (askar.fetch s category credential_id now)) _ h in
      let (there, same) = lift-eq-ok (ok_or found missing) rest in
      let (still, known) =
        fetch-Fresh store s start now w category credential_id found fresh
          (map_failure-eq-ok _ (askar.fetch s category credential_id now) asked) in
      (
        record {
          owner = still.owner;
          sees = ap (λ x. laws.view s x) (sym same) ∙ still.sees;
          keeps = ap (λ x. laws.entries store x) (sym same) ∙ still.keeps;
        },
        sym known ∙ ok_or-eq-ok found missing there,
      )

  -- What a session has written is the store's after the commit.
  pub committed :
      (store : askar.Store) (s : askar.Session) (now last : World)
      → laws.store_of s ≡ store
      → askar.commit s now ≡ (ok tt, last)
      → laws.entries store last ≡ laws.view s now
  committed store s now last owner h =
      ap (λ o. laws.entries o last) (sym owner) ∙ laws.entries-commit s now last h
