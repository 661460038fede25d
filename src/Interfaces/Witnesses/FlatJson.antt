-- ===== src/Interfaces/Witnesses/FlatJson.antt =====
-- JSON values as their own texts: an object is its fields with the lengths of the keys and the values.
use dzta.Prelude.{
  ℕ, zero, suc, ◌<◌, ◌≤◌, ◌≡◌, refl, Text, ok, Option, none, some, Bool, true, false, List, [], ◌∷◌,
  ◌++◌, length, length-append, take, drop, take-length_append, drop-length_append, text_eq, HashMap,
  lookup, distinct_keys, ◌==◌, if◌then◌else◌, Bool-cases, inl, inr, arith,
}
use dzta.Prelude.Int.{ℤ, pos, negsuc}
use dzta.Interfaces.Json.{Json, JsonLaws, JsonBuilders}

abbrev object : HashMap Text → Text
object [] = []
object ((k, v) ∷ fields) = length k ∷ (k ++ (length v ∷ (v ++ object fields)))

abbrev first_part : Text → Text
first_part [] = []
first_part (n ∷ s) = take n s

abbrev after_part : Text → Text
after_part [] = []
after_part (n ∷ s) = drop n s

-- The value of a key among the fields, over fuel.
unfoldable pub scan : ℕ → Text → Text → Option Text
scan zero s k = none
scan (suc fuel) [] k = none
scan (suc fuel) (n ∷ s) k = elim (text_eq (take n s) k) [
  | true ↦ some (first_part (drop n s))
  | false ↦ scan fuel (after_part (drop n s)) k
]

scan-object :
    (fields : HashMap Text) (fuel : ℕ) (k : Text)
    → length fields < fuel
    → scan fuel (object fields) k ≡ lookup k fields
unfolding scan
scan-object fields zero k h = absurd (omega arith)
scan-object [] (suc fuel) k h = refl
scan-object ((j, v) ∷ fields) (suc fuel) k h =
    let rest = length v ∷ (v ++ object fields) in
    let key : take (length j) (j ++ rest) ≡ j = take-length_append (length j) j rest refl in
    let value : drop (length j) (j ++ rest) ≡ rest = drop-length_append (length j) j rest refl in
    let head : take (length v) (v ++ object fields) ≡ v =
      take-length_append (length v) v (object fields) refl in
    let tail : drop (length v) (v ++ object fields) ≡ object fields =
      drop-length_append (length v) v (object fields) refl in
    elim (Bool-cases (text_eq j k)) [
      | inl same ↦ rw (scan, key, same, value, head) refl
      | inr other ↦ rw (scan, key, other, value, tail) (scan-object fields fuel k (omega arith))
    ]

fields_fit : (fields : HashMap Text) → length fields ≤ length (object fields)
fields_fit [] = omega arith
fields_fit ((k, v) ∷ fields) = omega (
  arith,
  fields_fit fields,
  length-append k (length v ∷ (v ++ object fields)),
  length-append v (object fields),
)

abbrev get : Text → Text → Option Text
get s k = scan (suc (length s)) s k

pub get-object :
    (fields : HashMap Text) (k : Text)
    → distinct_keys fields ≡ true
    → get (object fields) k ≡ lookup k fields
get-object fields k h =
    scan-object fields (suc (length (object fields))) k (omega (arith, fields_fit fields))

-- The tags of strings, naturals and negative numbers.
abbrev as_str : Text → Option Text
as_str [] = none
as_str (c ∷ s) = if c == 1 then some s else none

abbrev as_u64 : Text → Option ℕ
as_u64 (c ∷ n ∷ []) = if c == 2 then some n else none
as_u64 s = none

abbrev as_i64 : Text → Option ℤ
as_i64 (c ∷ n ∷ []) = if c == 2 then some (pos n) else if c == 3 then some (negsuc n) else none
as_i64 s = none

abbrev number_i64 : ℤ → Text
number_i64 (pos n) = 2 ∷ n ∷ []
number_i64 (negsuc n) = 3 ∷ n ∷ []

abbrev is_some {ℓ} : {A : Type ℓ} → Option A → Bool
is_some none = false
is_some (some a) = true

abbrev pub flat : Json Text
flat = record {
  from_slice = ok;
  to_string = λ v. v;
  get = get;
  as_str = as_str;
  as_u64 = as_u64;
  as_i64 = as_i64;
  is_string = λ v. is_some (as_str v);
  is_u64 = λ v. is_some (as_u64 v);
  is_i64 = λ v. is_some (as_i64 v);
  object = object;
  string = λ s. 1 ∷ s;
  number_u64 = λ n. 2 ∷ n ∷ [];
  number_i64 = number_i64;
}

pub as_i64-number_i64 : (n : ℤ) → as_i64 (number_i64 n) ≡ some n
as_i64-number_i64 (pos n) = refl
as_i64-number_i64 (negsuc n) = refl

pub is_i64-number_i64 : (n : ℤ) → is_some (as_i64 (number_i64 n)) ≡ true
is_i64-number_i64 (pos n) = refl
is_i64-number_i64 (negsuc n) = refl

abbrev pub flat-laws : JsonLaws flat
flat-laws = record {
  get-object = get-object;
  as_str-string = λ s. refl;
  as_u64-number_u64 = λ n. refl;
  as_i64-number_i64 = as_i64-number_i64;
  is_string-string = λ s. refl;
  is_u64-number_u64 = λ n. refl;
  is_i64-number_i64 = is_i64-number_i64;
}

abbrev truth : Bool → Text
truth true = 4 ∷ 1 ∷ []
truth false = 4 ∷ 0 ∷ []

abbrev joined : List Text → Text
joined [] = []
joined (v ∷ vs) = length v ∷ (v ++ joined vs)

abbrev pub flat_builders : JsonBuilders Text
flat_builders = record { bool = truth; null = 5 ∷ []; array = λ vs. 6 ∷ joined vs; to_vec = ok }
