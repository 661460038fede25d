-- ===== src/Fabric/Credentials/Specification.antt =====
-- What the store of credentials promises: a map from ids to documents with a mark of revocation. An id
-- is used once, and a mark stays.
use dzta.Prelude.{
  Text, ◌≡◌, refl, ap, sym, ◌∙◌, Option, none, some, Bool, true, false, List, [], ◌∷◌, text_eq,
  text_eq_refl, text_eq_iff, Bool-cases, inl, inr, if◌then◌else◌,
}

-- A document that could be opened, and whether it is revoked.
pub record Held : Type 0 where
  pub document : Option Text
  pub revoked : Bool

abbrev pub Holdings : Type 0
Holdings = Text → Option Held

abbrev pub set : Text → Held → Holdings → Holdings
set id held holdings j = if text_eq id j then some held else holdings j

pub data Command : Type 0 where
  -- an id and a document
  store : Text → Text → Command
  revoke : Text → Command

pub data Step (before after : Holdings) : Command → Type 0 where
  stores :
      (id document : Text)
      → before id ≡ none
      → after ≡ set id (record { document = some document; revoked = false }) before
      → Step before after (store id document)
  revokes :
      (id : Text) (held : Held)
      → before id ≡ some held
      → after ≡ set id (record held { revoked = true }) before
      → Step before after (revoke id)

pub data Steps : Holdings → Holdings → List Command → Type 0 where
  done : {before after : Holdings} → before ≡ after → Steps before after []
  next :
      {before middle after : Holdings} {command : Command} {commands : List Command}
      → Step before middle command
      → Steps middle after commands
      → Steps before after (command ∷ commands)

set_self : (id : Text) (held : Held) (holdings : Holdings) → set id held holdings id ≡ some held
set_self id held holdings = rw (text_eq_refl id) refl

-- A document that is held and revoked stays the same and stays revoked.
Step-revoked :
    {before after : Holdings} {command : Command} (id : Text) (document : Option Text)
    → Step before after command
    → before id ≡ some (record { document = document; revoked = true })
    → after id ≡ some (record { document = document; revoked = true })
Step-revoked id document (stores j text absent changed) there = elim (Bool-cases (text_eq j id)) [
  | inl same ↦ let e : j ≡ id = (text_eq_iff j id).0 same in absurd (cc (e, absent, there))
  | inr other ↦ ap (λ f. f id) changed ∙ rw other there
]
Step-revoked id document (revokes j held present changed) there = elim (Bool-cases (text_eq j id)) [
  | inl same ↦
      let e : j ≡ id = (text_eq_iff j id).0 same in
      let h : held ≡ record { document = document; revoked = true } = cc (e, present, there) in
      ap (λ f. f id) changed ∙ rw (same, h) refl
  | inr other ↦ ap (λ f. f id) changed ∙ rw other there
]

pub Steps-revoked :
    {before after : Holdings} {commands : List Command} (id : Text) (document : Option Text)
    → Steps before after commands
    → before id ≡ some (record { document = document; revoked = true })
    → after id ≡ some (record { document = document; revoked = true })
Steps-revoked id document (done same) there = ap (λ f. f id) (sym same) ∙ there
Steps-revoked id document (next step steps) there =
    Steps-revoked id document steps (Step-revoked id document step there)
