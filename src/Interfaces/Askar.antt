-- ===== src/Interfaces/Askar.antt =====
-- aries_askar's store, and the operating system's random bytes. A failure carries the text that the
-- library's error displays.
use dzta.Prelude.{
  ℕ, ◌≡◌, Text, Result, ok, Option, none, some, List, text_eq, ◌&&◌, if◌then◌else◌, length,
}

-- Plaintext tags with their names.
pub record Entry : Type 0 where
  pub value : Text
  pub tags : List (Text × Text)

-- The entries of a store: by category and name.
abbrev pub Entries : Type 0
Entries = Text → Text → Option Entry

abbrev pub update : Text → Text → Entry → Entries → Entries
update category name entry entries c n =
    if text_eq category c && text_eq name n then some entry else entries c n

pub record Askar (World : Type 0) : Type 1 where
  pub Store : Type 0
  pub Session : Type 0
  -- Store::open and Store::provision, of a URI and a passphrase whose key is derived by Argon2i
  pub open_store : Text → Text → World → Result Text Store × World
  pub provision : Text → Text → World → Result Text Store × World
  pub session : Store → World → Result Text Session × World
  -- of a category and a name
  pub fetch : Session → Text → Text → World → Result Text (Option Entry) × World
  pub insert : Session → Text → Text → Entry → World → Result Text (Unit {0}) × World
  pub replace : Session → Text → Text → Entry → World → Result Text (Unit {0}) × World
  pub commit : Session → World → Result Text (Unit {0}) × World

pub record Random (World : Type 0) : Type 0 where
  -- so many bytes
  pub getrandom : ℕ → World → Result Text Text × World

-- What Askar documents. A store has entries in a world, and so has a session, which starts with those
-- of its store; a commit makes the session's entries those of the store.
pub record AskarLaws {World : Type 0} (askar : Askar World) : Type 0 where
  pub entries : askar.Store → World → Entries
  pub view : askar.Session → World → Entries
  pub store_of : askar.Session → askar.Store
  pub store_of-session :
      (store : askar.Store) (s : askar.Session) (w w' : World)
      → askar.session store w ≡ (ok s, w')
      → store_of s ≡ store
  pub view-session :
      (store : askar.Store) (s : askar.Session) (w w' : World)
      → askar.session store w ≡ (ok s, w')
      → view s w' ≡ entries store w
  pub entries-session :
      (store : askar.Store) (s : askar.Session) (w w' : World)
      → askar.session store w ≡ (ok s, w')
      → entries store w' ≡ entries store w
  pub fetched :
      (s : askar.Session) (category name : Text) (found : Option Entry) (w w' : World)
      → askar.fetch s category name w ≡ (ok found, w')
      → found ≡ view s w category name
  pub view-fetch :
      (s : askar.Session) (category name : Text) (found : Option Entry) (w w' : World)
      → askar.fetch s category name w ≡ (ok found, w')
      → view s w' ≡ view s w
  pub entries-fetch :
      (s : askar.Session) (category name : Text) (found : Option Entry) (w w' : World)
      → askar.fetch s category name w ≡ (ok found, w')
      → entries (store_of s) w' ≡ entries (store_of s) w
  pub insert-absent :
      (s : askar.Session) (category name : Text) (entry : Entry) (w w' : World)
      → askar.insert s category name entry w ≡ (ok tt, w')
      → view s w category name ≡ none
  pub view-insert :
      (s : askar.Session) (category name : Text) (entry : Entry) (w w' : World)
      → askar.insert s category name entry w ≡ (ok tt, w')
      → view s w' ≡ update category name entry (view s w)
  pub view-replace :
      (s : askar.Session) (category name : Text) (entry : Entry) (w w' : World)
      → askar.replace s category name entry w ≡ (ok tt, w')
      → view s w' ≡ update category name entry (view s w)
  pub entries-commit :
      (s : askar.Session) (w w' : World)
      → askar.commit s w ≡ (ok tt, w')
      → entries (store_of s) w' ≡ view s w

-- Random bytes have the length that was asked for, and asking for them leaves the stores alone.
pub record RandomLaws {World : Type 0} (random : Random World) (askar : Askar World)
    (laws : AskarLaws askar) : Type 0 where
  pub length-getrandom :
      (n : ℕ) (bytes : Text) (w w' : World)
      → random.getrandom n w ≡ (ok bytes, w')
      → length bytes ≡ n
  pub entries-getrandom :
      (n : ℕ) (bytes : Text) (store : askar.Store) (w w' : World)
      → random.getrandom n w ≡ (ok bytes, w')
      → laws.entries store w' ≡ laws.entries store w
  pub view-getrandom :
      (n : ℕ) (bytes : Text) (s : askar.Session) (w w' : World)
      → random.getrandom n w ≡ (ok bytes, w')
      → laws.view s w' ≡ laws.view s w
