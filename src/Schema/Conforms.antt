-- ===== src/Schema/Conforms.antt =====
-- Which subjects the schema engine accepts.
use dzta.Prelude.{
  ok_or-eq-ok, ◌≡◌, ◌↔◌, inl, inr, refl, Text, ok, >>=-eq-ok, none, some, Bool, true, false, List,
  [], ◌∷◌, All, utf8, text_eq, text_eq_iff, Bool-cases, Option-cases, arith,
}
use dzta.Prelude.Int.{ℤ, pos, leb_ℤ}
use dzta.Interfaces.Json.{Json}
use dzta.Schema.{SchemaAttribute, check_timestamp, check_value, validate_fields}

module _ {Value : Type 0} (json : Json Value) (is_rfc3339 : Text → Bool) where
  open json use {get, is_string, is_i64, is_u64, as_i64, as_str}

  -- A positive Unix time, or a text in the format of RFC 3339 that is no number.
  pub data IsTimestamp (v : Value) : Type 0 where
    unix_time : {t : ℤ} → as_i64 v ≡ some t → leb_ℤ t (pos 0) ≡ false → IsTimestamp v
    written_time :
        {s : Text} → as_i64 v ≡ none → as_str v ≡ some s → is_rfc3339 s ≡ true → IsTimestamp v

  -- What a value must be for each type of an attribute.
  pub data HasType (v : Value) (type_name : Text) : Type 0 where
    is_text : type_name ≡ utf8 "string" → is_string v ≡ true → HasType v type_name
    is_signed : type_name ≡ utf8 "integer" → is_i64 v ≡ true → HasType v type_name
    is_unsigned : type_name ≡ utf8 "integer" → is_u64 v ≡ true → HasType v type_name
    is_time : type_name ≡ utf8 "timestamp" → IsTimestamp v → HasType v type_name

  -- The subject has the attribute, with a value of its type.
  abbrev pub HasAttribute : Value → SchemaAttribute → Type 0
  HasAttribute subject attr =
      (v : Value) × (get subject attr.name ≡ some v) × HasType v attr.attr_type

  check_timestamp_iff :
      (name : Text) (v : Value) → (check_timestamp json is_rfc3339 name v ≡ ok tt) ↔ IsTimestamp v
  unfolding check_timestamp
  check_timestamp_iff name v = (sound, complete)
    where
      sound : check_timestamp json is_rfc3339 name v ≡ ok tt → IsTimestamp v
      sound h = elim (Option-cases (as_i64 v)) [
        | inr (t, number) ↦
            unix_time number (let f = rw (check_timestamp, number) at h in ground arith)
        | inl no_number ↦ elim (Option-cases (as_str v)) [
          | inr (s, text) ↦
              written_time no_number text
                (let f = rw (check_timestamp, no_number, text) at h in ground arith)
          | inl no_text ↦ absurd (let f = rw (check_timestamp, no_number, no_text) at h in cc (f))
        ]
      ]

      complete : IsTimestamp v → check_timestamp json is_rfc3339 name v ≡ ok tt
      complete (unix_time e positive) = rw (check_timestamp, e, positive)
      complete (written_time e s valid) = rw (check_timestamp, e, s, valid)

  HasType-check_value :
      (attr : SchemaAttribute) (v : Value)
      → HasType v attr.attr_type
      → check_value json is_rfc3339 attr v ≡ ok tt
  unfolding check_value utf8
  HasType-check_value attr v (is_text type text) = rw (check_value, type, text)
  HasType-check_value attr v (is_signed type number) = rw (check_value, type, number)
  HasType-check_value attr v (is_unsigned type number) = elim (Bool-cases (is_i64 v)) [
    | inl signed ↦ rw (check_value, type, signed)
    | inr not_signed ↦ rw (check_value, type, not_signed, number)
  ]
  HasType-check_value attr v (is_time type time) =
      rw (check_value, type) ((check_timestamp_iff attr.name v).1 time)

  check_value-HasType :
      (attr : SchemaAttribute) (v : Value)
      → check_value json is_rfc3339 attr v ≡ ok tt
      → HasType v attr.attr_type
  unfolding check_value
  check_value-HasType attr v h = elim (Bool-cases (text_eq attr.attr_type (utf8 "string"))) [
    | inl text ↦
        is_text ((text_eq_iff _ _).0 text) (let f = rw (check_value, text) at h in ground arith)
    | inr no_text ↦ elim (Bool-cases (text_eq attr.attr_type (utf8 "integer"))) [
      | inl integer ↦ elim (Bool-cases (is_i64 v)) [
        | inl signed ↦ is_signed ((text_eq_iff _ _).0 integer) signed
        | inr not_signed ↦
            is_unsigned ((text_eq_iff _ _).0 integer)
              (let f = rw (check_value, no_text, integer, not_signed) at h in ground arith)
      ]
      | inr no_integer ↦ elim (Bool-cases (text_eq attr.attr_type (utf8 "timestamp"))) [
        | inl time ↦
            is_time ((text_eq_iff _ _).0 time) (
              (check_timestamp_iff attr.name v).0
                (rw (check_value, no_text, no_integer, time) at h))
        | inr unknown ↦
            absurd (let f = rw (check_value, no_text, no_integer, unknown) at h in cc (f))
      ]
    ]
  ]

  -- A subject is accepted exactly when it has every attribute of the schema with a value of the
  -- attribute's type: a string, an integer, or a timestamp, which is a positive Unix time or an RFC 3339
  -- text.
  pub validate_fields_iff :
      (attributes : List SchemaAttribute) (subject : Value)
      → (validate_fields json is_rfc3339 attributes subject ≡ ok tt)
        ↔ All (HasAttribute subject) attributes
  unfolding validate_fields
  validate_fields_iff [] subject = (λ h. tt, λ a. refl)
  validate_fields_iff (attr ∷ attributes) subject =
      let rest = validate_fields_iff attributes subject in
      (
        λ h.
            let (v, e1, h1) = >>=-eq-ok _ _ h in
            let (u, e2, h2) = >>=-eq-ok (check_value json is_rfc3339 attr v) _ h1 in
            (
              (v, ok_or-eq-ok (get subject attr.name) _ e1, check_value-HasType attr v e2),
              rest.0 h2,
            ),
        λ a.
            let (v, found, typed) = a.0 in
            rw (validate_fields, found, HasType-check_value attr v typed) (rest.1 a.1),
      )
