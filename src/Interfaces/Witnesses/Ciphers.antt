-- ===== src/Interfaces/Witnesses/Ciphers.antt =====
-- A cipher that changes nothing and tags with zeros, base64 that changes nothing, and a store of the
-- host that is a function.
use mathlib.Core.List.{append-nil}
use dzta.Prelude.{
  ℕ, ◌≡◌, ◌≢◌, refl, ap, sym, Text, Result, ok, ok-injective, Option, some, [], ◌∷◌, ◌++◌, length,
  text_eq, text_eq_refl, text_eq_iff, Bool-cases, inl, inr, if◌then◌else◌,
}
use dzta.Interfaces.Crypto.{Aes256Gcm, AeadLaws, Sealed, Opened}
use dzta.Interfaces.Groth16.{Base64}
use dzta.Interfaces.SharedData.{SharedData}

pub data Cipher : Type 0 where
  cipher : Cipher

abbrev tag : Text
tag = 0 ∷ 0 ∷ 0 ∷ 0 ∷ 0 ∷ 0 ∷ 0 ∷ 0 ∷ 0 ∷ 0 ∷ 0 ∷ 0 ∷ 0 ∷ 0 ∷ 0 ∷ 0 ∷ []

abbrev pub plain_aes : Aes256Gcm Cipher
plain_aes = record {
  new_encrypt = λ key nonce. ok cipher;
  new_decrypt = λ key nonce. ok cipher;
  update = λ c s. ok (s, c);
  finalize = λ c. ok ([], c);
  get_tag = λ c. ok tag;
  set_tag = λ c t. ok c;
}

pub plain_opens :
    (key nonce plaintext head last t : Text)
    → Sealed plain_aes key nonce plaintext head last t
    → Opened plain_aes key nonce (head ++ last) t plaintext
plain_opens key nonce plaintext head last t s =
    let same : plaintext ≡ head = ap (λ r. r.0) (ok-injective s.updates) in
    let nothing : [] ≡ last = ap (λ r. r.0) (ok-injective s.finishes) in
    record {
      start = cipher;
      tagged = cipher;
      updated = cipher;
      finished = cipher;
      head = head ++ last;
      last = [];
      starts = refl;
      tags = refl;
      updates = refl;
      finishes = refl;
      whole = rw (same, ← nothing, append-nil, append-nil);
    }

abbrev pub plain_aes-laws : AeadLaws plain_aes
plain_aes-laws = record {
  length-tag = λ c t h. ap length (sym (ok-injective h));
  opens = plain_opens;
}

abbrev pub identity_base64 : Base64
identity_base64 = record { encode = λ s. s; decode = ok; decode-encode = λ s. refl }

abbrev pub Store : Type 0
Store = Text → Option Text

abbrev put : Text → Text → Store → Store
put k v s j = if text_eq k j then some v else s j

pub put_self :
    (k v : Text) (s s' : Store) → ◌≡◌ {A = Result ℕ Store} (ok (put k v s)) (ok s') → s' k ≡ some v
put_self k v s s' h = rw (← ok-injective h, text_eq_refl k)

pub put_ne :
    (k j v : Text) (s s' : Store)
    → k ≢ j
    → ◌≡◌ {A = Result ℕ Store} (ok (put k v s)) (ok s')
    → s' j ≡ s j
put_ne k j v s s' other h = elim (Bool-cases (text_eq k j)) [
  | inl same ↦ absurd (other ((text_eq_iff k j).0 same))
  | inr different ↦ rw (← ok-injective h, different)
]

abbrev pub memory : SharedData Store
memory = record {
  get_shared_data = λ k s. s k;
  set_shared_data = λ k v s. ok (put k v s);
  get-set_self = put_self;
  get-set_ne = put_ne;
}
