-- ===== src/Interfaces/Witnesses/Proofs.antt =====
-- A proof system whose proofs are the public inputs, and JSON documents as trees.
use native.Mathlib.Nat.{mod-eq_of_lt}
use dzta.Prelude.{
  ℕ, ◌≡◌, refl, ap, Text, ok, Option, none, some, Bool, true, false, List, [], ◌∷◌, map, text_eq,
  if◌then◌else◌,
}
use dzta.Prelude.Int.{ℤ, pos}
use dzta.Interfaces.Json.{Json}
use dzta.Interfaces.Groth16.{Groth16, Groth16Laws}
use dzta.Interfaces.Witnesses.Zmod.{fr, Fr, reduce}
use dzta.Circuit.{RoleVerificationCircuit}

pub data Certificate : Type 0 where
  certificate : Certificate

abbrev numbers : List Fr → Text
numbers xs = map (λ a. a.0) xs

abbrev elements : Text → List Fr
elements s = map reduce s

reduce_number : (a : Fr) → reduce a.0 ≡ a
reduce_number a = fr.into_bigint_injective (reduce a.0) a (mod-eq_of_lt a.1)

pub elements-numbers : (xs : List Fr) → elements (numbers xs) ≡ xs
elements-numbers [] = refl
elements-numbers (a ∷ xs) = rw (reduce_number a, elements-numbers xs)

abbrev pub trusting : Groth16 Fr (RoleVerificationCircuit Fr) Certificate Certificate Certificate
trusting = record {
  prove = λ c key seed. ok certificate;
  verify_proof = λ key proof xs. ok true;
  serialize_proof = λ p. [];
  deserialize_proof = λ s. ok certificate;
  serialize_inputs = numbers;
  deserialize_inputs = λ s. ok (elements s);
}

pub one_certificate : (p : Certificate) → certificate ≡ p
one_certificate certificate = refl

abbrev pub trusting-laws :
    {Holds : RoleVerificationCircuit Fr → List Fr → Type 0}
    → Groth16Laws trusting Holds (λ (pk : Certificate) (vk : Certificate). pk ≡ vk)
trusting-laws = record {
  deserialize-serialize_proof = λ p. ap ok (one_certificate p);
  deserialize-serialize_inputs = λ xs. ap ok (elements-numbers xs);
  complete = λ c xs pk vk seed p pair holds proved. refl;
}

pub data Document : Type 0 where
  string : Text → Document
  integer : ℤ → Document
  empty : Document
  -- a key, its value, and the other fields
  field : Text → Document → Document → Document

abbrev get : Document → Text → Option Document
get (field j v rest) k = let others = get rest k in if text_eq j k then some v else others
get _ k = none

abbrev as_str : Document → Option Text
as_str (string s) = some s
as_str _ = none

abbrev as_u64 : Document → Option ℕ
as_u64 (integer (pos n)) = some n
as_u64 _ = none

abbrev as_i64 : Document → Option ℤ
as_i64 (integer n) = some n
as_i64 _ = none

abbrev is_some : {A : Type 0} → Option A → Bool
is_some none = false
is_some (some a) = true

abbrev object : List (Text × Document) → Document
object [] = empty
object ((k, v) ∷ fields) = field k v (object fields)

-- The reader that takes every text for the one document.
abbrev pub reads : Document → Json Document
reads document = record {
  from_slice = λ s. ok document;
  to_string = λ v. [];
  get = get;
  as_str = as_str;
  as_u64 = as_u64;
  as_i64 = as_i64;
  is_string = λ v. is_some (as_str v);
  is_u64 = λ v. is_some (as_u64 v);
  is_i64 = λ v. is_some (as_i64 v);
  object = object;
  string = string;
  number_u64 = λ n. integer (pos n);
  number_i64 = integer;
}
