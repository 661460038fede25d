-- ===== src/Interfaces/Json.antt =====
-- serde_json: values, and the accessors that the sources call.
use dzta.Prelude.{distinct_keys, lookup, ℕ, ◌≡◌, Text, Result, Option, some, Bool, true, List}
use dzta.Prelude.Int.{ℤ}

pub record Json (Value : Type 0) : Type 0 where
  -- from_slice::<Value>, and Value's Display
  pub from_slice : Text → Result Text Value
  pub to_string : Value → Text
  -- Value::get with a string
  pub get : Value → Text → Option Value
  pub as_str : Value → Option Text
  pub as_u64 : Value → Option ℕ
  pub as_i64 : Value → Option ℤ
  pub is_string : Value → Bool
  pub is_u64 : Value → Bool
  pub is_i64 : Value → Bool
  -- json!({ … }), Value::from
  pub object : List (Text × Value) → Value
  pub string : Text → Value
  pub number_u64 : ℕ → Value
  pub number_i64 : ℤ → Value

pub record JsonLaws {Value : Type 0} (json : Json Value) : Type 0 where
  pub get-object :
      (fields : List (Text × Value)) (k : Text)
      → distinct_keys fields ≡ true
      → json.get (json.object fields) k ≡ lookup k fields
  pub as_str-string : (s : Text) → json.as_str (json.string s) ≡ some s
  pub as_u64-number_u64 : (n : ℕ) → json.as_u64 (json.number_u64 n) ≡ some n
  pub as_i64-number_i64 : (n : ℤ) → json.as_i64 (json.number_i64 n) ≡ some n
  pub is_string-string : (s : Text) → json.is_string (json.string s) ≡ true
  pub is_u64-number_u64 : (n : ℕ) → json.is_u64 (json.number_u64 n) ≡ true
  pub is_i64-number_i64 : (n : ℤ) → json.is_i64 (json.number_i64 n) ≡ true

-- The other forms of `json!`, and serde_json::to_vec.
pub record JsonBuilders (Value : Type 0) : Type 0 where
  pub bool : Bool → Value
  pub null : Value
  pub array : List Value → Value
  pub to_vec : Value → Result Text Text
