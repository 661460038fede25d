-- ===== src/Schema.antt =====
-- fabric-client/src/schema_engine.rs: a credential's subject against the attributes of a schema.
pub mod Conforms
mod Examples
use dzta.Prelude.{
  Text, Result, ok, err, ok_or, ◌>>=◌, ◌++◌, Option, none, some, Bool, true, false, not, ◌&&◌, List,
  [], ◌∷◌, utf8, text_eq, String, if◌then◌else◌,
}
use dzta.Prelude.Int.{ℤ, pos, leb_ℤ}
use dzta.Errors.{WalletError, WalletResult, invalid_witness, config_error}
use dzta.Interfaces.Json.{Json}

pub record SchemaAttribute : Type 0 where
  pub name : Text
  pub attr_type : Text
  pub predicate : Bool

-- A message with the name of a field in it.
abbrev naming : String → Text → String → WalletError
naming before name after = invalid_witness (utf8 before ++ (name ++ utf8 after))

abbrev mismatch : String → Text → Text → WalletError
mismatch expected name found =
    invalid_witness
      (utf8 "Type mismatch for '" ++ (name ++ (utf8 expected ++ (utf8 ", found value: " ++ found))))

abbrev require : Bool → WalletError → WalletResult (Unit {0})
require true e = ok tt
require false e = err e

-- `is_rfc3339` tells whether chrono::DateTime::parse_from_rfc3339 succeeds.
module _ {Value : Type 0} (json : Json Value) (is_rfc3339 : Text → Bool) where
  open json use {get, is_string, is_i64, is_u64, as_i64, as_str, to_string}

  unfoldable check_timestamp : Text → Value → WalletResult (Unit {0})
  check_timestamp name field_value = elim (as_i64 field_value) [
    | some ts ↦
        require (not (leb_ℤ ts (pos 0))) (naming "Invalid negative timestamp range for '" name "'")
    | none ↦ elim (as_str field_value) [
      | some ts_str ↦
          require (is_rfc3339 ts_str)
            (naming "Field '" name "' is not a valid RFC3339 timestamp string")
      | none ↦ err (
          naming "Type mismatch for '" name
            "'. Expected Unix timestamp integer or RFC3339 string format.")
    ]
  ]

  unfoldable check_value : SchemaAttribute → Value → WalletResult (Unit {0})
  unfolding check_timestamp
  check_value attr field_value =
      if text_eq attr.attr_type (utf8 "string")
      then require (is_string field_value)
          (mismatch "'. Expected string" attr.name (to_string field_value))
      else if text_eq attr.attr_type (utf8 "integer")
      then require (not (not (is_i64 field_value) && not (is_u64 field_value)))
          (mismatch "'. Expected integer" attr.name (to_string field_value))
      else if text_eq attr.attr_type (utf8 "timestamp")
      then check_timestamp attr.name field_value
      else err (
          config_error (
            utf8 "Unrecognized schema type constraint '"
            ++ (attr.attr_type ++ (utf8 "' on field '" ++ (attr.name ++ utf8 "'")))))

  unfoldable pub validate_fields : List SchemaAttribute → Value → WalletResult (Unit {0})
  unfolding check_value
  validate_fields [] credential_subject = ok tt
  validate_fields (attr ∷ attributes) credential_subject = do
    field_value ←
        ok_or (get credential_subject attr.name)
          (naming "Missing required schema field: '" attr.name "'")
    _ ← check_value attr field_value
    validate_fields attributes credential_subject
