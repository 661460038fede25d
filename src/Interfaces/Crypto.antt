-- ===== src/Interfaces/Crypto.antt =====
-- The cryptographic libraries: sha2, openssl's Crypter for AES-256-GCM, and num_bigint.
use dzta.Prelude.{[], ◌≢◌, ℕ, ◌≡◌, ◌++◌, Text, Result, ok, length, utf8}
use dzta.Interfaces.PrimeField.{bytes_value}

-- sha2::Sha256. Updates with several strings digest their concatenation.
pub record Sha256 : Type 0 where
  pub digest : Text → Text
  pub length-digest : (s : Text) → length (digest s) ≡ 32

-- openssl::symm::Crypter with Cipher::aes_256_gcm(). A failure carries the text of the library's
-- error. `update` and `finalize` return the bytes that they write; `get_tag` fills 16 bytes.
pub record Aes256Gcm (Crypter : Type 0) : Type 0 where
  pub new_encrypt : Text → Text → Result Text Crypter
  pub new_decrypt : Text → Text → Result Text Crypter
  pub update : Crypter → Text → Result Text (Text × Crypter)
  pub finalize : Crypter → Result Text (Text × Crypter)
  pub get_tag : Crypter → Result Text Text
  pub set_tag : Crypter → Text → Result Text Crypter

-- A run of the cipher that seals `plaintext` as `head ++ last` with `tag`.
pub record Sealed {Crypter : Type 0} (aes : Aes256Gcm Crypter)
    (key nonce plaintext head last tag : Text) : Type 0 where
  pub start : Crypter
  pub updated : Crypter
  pub finished : Crypter
  pub starts : aes.new_encrypt key nonce ≡ ok start
  pub updates : aes.update start plaintext ≡ ok (head, updated)
  pub finishes : aes.finalize updated ≡ ok (last, finished)
  pub tags : aes.get_tag finished ≡ ok tag

-- A run of the cipher that opens `ciphertext` with `tag` as `head ++ last`.
pub record Opened {Crypter : Type 0} (aes : Aes256Gcm Crypter)
    (key nonce ciphertext tag plaintext : Text) : Type 0 where
  pub start : Crypter
  pub tagged : Crypter
  pub updated : Crypter
  pub finished : Crypter
  pub head : Text
  pub last : Text
  pub starts : aes.new_decrypt key nonce ≡ ok start
  pub tags : aes.set_tag start tag ≡ ok tagged
  pub updates : aes.update tagged ciphertext ≡ ok (head, updated)
  pub finishes : aes.finalize updated ≡ ok (last, finished)
  pub whole : head ++ last ≡ plaintext

-- What AES-256-GCM promises: it opens what it has sealed, and its tag has 16 bytes.
pub record AeadLaws {Crypter : Type 0} (aes : Aes256Gcm Crypter) : Type 0 where
  pub length-tag : (c : Crypter) (tag : Text) → aes.get_tag c ≡ ok tag → length tag ≡ 16
  pub opens :
      (key nonce plaintext head last tag : Text)
      → Sealed aes key nonce plaintext head last tag
      → Opened aes key nonce (head ++ last) tag plaintext

-- num_bigint::BigUint, whose values are the natural numbers.
pub record BigUint : Type 0 where
  -- from_str_radix(_, 10), to_str_radix(10)
  pub from_str_radix : Text → Result Text ℕ
  pub to_str_radix : ℕ → Text
  pub from_bytes_be : Text → ℕ
  pub to_bytes_le : ℕ → Text
  pub from_str_radix-to_str_radix : (n : ℕ) → from_str_radix (to_str_radix n) ≡ ok n
  pub from_str_radix-nil : (n : ℕ) → from_str_radix [] ≢ ok n
  pub to_str_radix-zero : to_str_radix 0 ≡ utf8 "0"
  pub bytes_value-to_bytes_le : (n : ℕ) → bytes_value (to_bytes_le n) ≡ n
