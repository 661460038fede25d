-- ===== src/Edge/Path.antt =====
-- The id that an admin path names.
use dzta.Prelude.{
  ℕ, ◌≡◌, refl, Text, ◌++◌, some, ◌∷◌, utf8, false, get_elem?, contains_byte-append, contains_byte,
  split, split-append, split_none, arith, text_eq_refl,
}
use mathlib.Core.List.{append_assoc}
use dzta.Edge.{target_id, id_value, admin_prefix}

abbrev pub revoke_path : Text → Text
revoke_path id = admin_prefix ++ (b'?' ∷ (utf8 "id" ++ b'=' ∷ id))

-- An id free of the separators of a URL's query.
pub record IsPlain (id : Text) : Type 0 where
  pub no_question : contains_byte b'?' id ≡ false
  pub no_ampersand : contains_byte b'&' id ≡ false
  pub no_equals : contains_byte b'=' id ≡ false

query_pair :
    (id : Text) → contains_byte b'=' id ≡ false → id_value (utf8 "id" ++ b'=' ∷ id) ≡ some id
unfolding id_value
query_pair id h = ground (
  arith,
  split-append b'=' (utf8 "id") id (unfold utf8 in refl),
  split_none b'=' id h,
  text_eq_refl (utf8 "id"),
)

abbrev query_of : Text → Text
query_of id = utf8 "id" ++ b'=' ∷ id

contains_byte-query_of :
    (c : ℕ) (id : Text)
    → contains_byte c (utf8 "id=") ≡ false
    → contains_byte c id ≡ false
    → contains_byte c (query_of id) ≡ false
unfolding utf8
contains_byte-query_of c id h k = ground arith

-- The query of a path that has one.
second_part :
    (query : Text)
    → contains_byte b'?' query ≡ false
    → get_elem? (split b'?' (admin_prefix ++ b'?' ∷ query)) 1 ≡ some query
second_part query h =
    rw (split-append b'?' admin_prefix query (unfold utf8 in refl), split_none b'?' query h)

-- The path that names a plain id yields that id.
pub target_id-revoke_path : (id : Text) → IsPlain id → target_id (revoke_path id) ≡ some id
unfolding target_id
target_id-revoke_path id plain = ground (
  arith,
  second_part (query_of id)
      (contains_byte-query_of b'?' id (unfold utf8 in refl) plain.no_question),
  split_none b'&' (query_of id)
      (contains_byte-query_of b'&' id (unfold utf8 in refl) plain.no_ampersand),
  query_pair id plain.no_equals,
)

-- An id with an ampersand is cut there: the path names what stands before it.
pub target_id-ampersand :
    (id rest : Text)
    → IsPlain id
    → contains_byte b'?' rest ≡ false
    → target_id (revoke_path (id ++ b'&' ∷ rest)) ≡ some id
unfolding target_id
target_id-ampersand id rest plain h =
    let no_question : contains_byte b'?' (id ++ b'&' ∷ rest) ≡ false =
      contains_byte-append b'?' id (b'&' ∷ rest) plain.no_question h in
    ground (
      arith,
      second_part (query_of (id ++ b'&' ∷ rest))
          (contains_byte-query_of b'?' (id ++ b'&' ∷ rest) (unfold utf8 in refl) no_question),
      split-append b'&' (query_of id) rest
          (contains_byte-query_of b'&' id (unfold utf8 in refl) plain.no_ampersand),
      append_assoc (utf8 "id") (b'=' ∷ id) (b'&' ∷ rest),
      query_pair id plain.no_equals,
    )
