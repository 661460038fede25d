-- ===== src/Shared/WalletRecord.antt =====
-- encrypt_wallet_record and decrypt_wallet_record of shared/src/zkp_core.rs.
pub mod RoundTrip
pub mod Format
use dzta.Prelude.{
  ℕ, ◌+◌, ◌-◌, Text, Result, ok, err, map_err, ◌>>=◌, ◌++◌, length, take, drop, starts_with, utf8,
  ltb, not, ◌||◌, if◌then◌else◌, String,
}
use dzta.Errors.{WalletError, WalletResult, execution_failed}
use dzta.Interfaces.Crypto.{Sha256, Aes256Gcm}

unfoldable pub magic : Text
unfolding utf8
magic = utf8 "DZTA1"

-- `format!("…: {e}")` as the payload of `ExecutionFailed`.
abbrev pub failed : String → Text → WalletError
failed message e = execution_failed (utf8 message ++ e)

module _ {Crypter : Type 0} (sha : Sha256) (aes : Aes256Gcm Crypter) where
  open sha use {digest}
  open aes use {new_encrypt, new_decrypt, update, finalize, get_tag, set_tag}

  -- `random` is the outcome of getrandom for the 12 bytes of the nonce.
  unfoldable pub encrypt_wallet_record : Result Text Text → Text → Text → WalletResult Text
  encrypt_wallet_record random plaintext passphrase = do
    let key = digest passphrase
    nonce ← map_err (failed "Failed to generate nonce: ") random
    crypter ← map_err (failed "Failed to initialize encryption: ") (new_encrypt key nonce)
    (head, updated) ←
        map_err (failed "Failed to encrypt wallet record: ") (update crypter plaintext)
    (last, finished) ← map_err (failed "Failed to finalize encryption: ") (finalize updated)
    tag ← map_err (failed "Failed to finalize authentication tag: ") (get_tag finished)
    ok (magic ++ (nonce ++ ((head ++ last) ++ tag)))

  -- The part after the check of the envelope's shape.
  unfoldable pub open_envelope : Text → Text → WalletResult Text
  open_envelope envelope passphrase = do
    let nonce_start = length magic
    let nonce_end = nonce_start + 12
    let tag_start = length envelope - 16
    let key = digest passphrase
    crypter ←
        map_err (failed "Failed to initialize decryption: ")
          (new_decrypt key (take 12 (drop nonce_start envelope)))
    tagged ←
        map_err (failed "Failed to set authentication tag: ")
          (set_tag crypter (drop tag_start envelope))
    let ciphertext = take (tag_start - nonce_end) (drop nonce_end envelope)
    (head, updated) ←
        map_err (failed "Failed to decrypt wallet record: ") (update tagged ciphertext)
    (last, finished) ←
        map_err (λ _. execution_failed (utf8 "Wallet record authentication failed"))
          (finalize updated)
    ok (head ++ last)

  unfoldable pub decrypt_wallet_record : Text → Text → WalletResult Text
  decrypt_wallet_record envelope passphrase =
      if ltb (length envelope) (length magic + 12 + 16) || not (starts_with envelope magic)
      then err (execution_failed (utf8 "Invalid wallet record envelope"))
      else open_envelope envelope passphrase
