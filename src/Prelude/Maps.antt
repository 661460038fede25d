-- ===== src/Prelude/Maps.antt =====
-- Rust's `HashMap<String, V>` as the list of its entries, in the order in which the map iterates.
use mathlib.Core.Path.{◌≡◌, refl}
use mathlib.Core.Logic.{◌↔◌, inl, inr}
use mathlib.Core.Bool.{Bool, true, not, ◌&&◌}
use mathlib.Core.Option.{Option, none, some}
use mathlib.Core.List.{List, [], ◌∷◌, map}
use dzta.Prelude.Tests.{if◌then◌else◌, Bool-cases}
use dzta.Prelude.Lists.{any}
use dzta.Prelude.Texts.{Text, text_eq}

abbrev pub HashMap {ℓ} : Type ℓ → Type ℓ
HashMap V = List (Text × V)

module _ {ℓ} {V : Type ℓ} where
  abbrev pub lookup : Text → HashMap V → Option V
  lookup k [] = none
  lookup k ((j, v) ∷ fields) = if text_eq j k then some v else lookup k fields

  abbrev pub distinct_keys : HashMap V → Bool
  distinct_keys [] = true
  distinct_keys ((j, v) ∷ fields) = not (any (λ f. text_eq f.0 j) fields) && distinct_keys fields

  abbrev pub contains_key : Text → HashMap V → Bool
  contains_key k entries = any (λ f. text_eq f.0 k) entries

  abbrev pub keys : HashMap V → List Text
  keys entries = map (λ f. f.0) entries

  abbrev pub values : HashMap V → List V
  values entries = map (λ f. f.1) entries

  pub contains_key_iff :
      (k : Text) (entries : HashMap V)
      → (contains_key k entries ≡ true) ↔ ((v : V) × (lookup k entries ≡ some v))
  contains_key_iff k [] = (λ h. absurd (cc (h)), λ h. absurd (cc (h.1)))
  contains_key_iff k ((j, v) ∷ entries) = elim (Bool-cases (text_eq j k)) [
    | inl e ↦ rw e (λ _. (v, refl), λ _. refl)
    | inr e ↦ rw e (contains_key_iff k entries)
  ]
