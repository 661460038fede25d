-- ===== src/Shared/WalletRecord/RoundTrip.antt =====
-- A record that was encrypted is decrypted with its passphrase.
use dzta.Prelude.{
  ◌+◌, ◌-◌, ◌≡◌, refl, sym, Text, ok, map_err, >>=-eq-ok, map_err-eq-ok, ok-injective, ◌++◌, length,
  take, drop, starts_with, true, arith, length-append, take-length_append, drop-length_append,
  starts_with-append,
}
use mathlib.Core.List.{append_assoc}
use dzta.Interfaces.Crypto.{Sha256, Aes256Gcm, AeadLaws, Sealed, Opened}
use dzta.Shared.WalletRecord.{
  magic, failed, encrypt_wallet_record, decrypt_wallet_record, open_envelope,
}

pub length-magic : length magic ≡ 5
unfolding magic
length-magic = refl

module _ {Crypter : Type 0} (sha : Sha256) (aes : Aes256Gcm Crypter) where
  open sha use {digest}

  -- What a successful encryption has done.
  record Encrypted (nonce plaintext passphrase envelope : Text) : Type 0 where
    head : Text
    last : Text
    tag : Text
    sealing : Sealed aes (digest passphrase) nonce plaintext head last tag
    layout : envelope ≡ magic ++ (nonce ++ ((head ++ last) ++ tag))

  encrypt_wallet_record_inversion :
      (nonce plaintext passphrase envelope : Text)
      → encrypt_wallet_record sha aes (ok nonce) plaintext passphrase ≡ ok envelope
      → Encrypted nonce plaintext passphrase envelope
  unfolding encrypt_wallet_record
  encrypt_wallet_record_inversion nonce plaintext passphrase envelope h =
      let key = digest passphrase in
      let (start, starts, h₁) =
        >>=-eq-ok (map_err (failed "Failed to initialize encryption: ") (aes.new_encrypt key nonce))
          _ h in
      let (first, updates, h₂) =
        >>=-eq-ok
          (map_err (failed "Failed to encrypt wallet record: ") (aes.update start plaintext)) _
          h₁ in
      let (second, finishes, h₃) =
        >>=-eq-ok (map_err (failed "Failed to finalize encryption: ") (aes.finalize first.1)) _
          h₂ in
      let (tag, tags, h₄) =
        >>=-eq-ok
          (map_err (failed "Failed to finalize authentication tag: ") (aes.get_tag second.1)) _
          h₃ in
      record {
        head = first.0;
        last = second.0;
        tag = tag;
        sealing = record {
          start = start;
          updated = first.1;
          finished = second.1;
          starts = map_err-eq-ok _ _ starts;
          updates = map_err-eq-ok _ _ updates;
          finishes = map_err-eq-ok _ _ finishes;
          tags = map_err-eq-ok _ _ tags;
        };
        layout = sym (ok-injective h₄);
      }

  module _ (nonce passphrase ciphertext tag : Text) (hn : length nonce ≡ 12)
      (ht : length tag ≡ 16) where
    unfoldable pub envelope_of : Text
    envelope_of = magic ++ (nonce ++ (ciphertext ++ tag))

    length-envelope_of : length envelope_of ≡ 33 + length ciphertext
    unfolding envelope_of
    length-envelope_of = omega (
      arith,
      length-magic,
      length-append magic (nonce ++ (ciphertext ++ tag)),
      length-append nonce (ciphertext ++ tag),
      length-append ciphertext tag,
    )

    pub nonce_part : take 12 (drop (length magic) envelope_of) ≡ nonce
    unfolding envelope_of
    nonce_part =
        rw (drop-length_append (length magic) magic (nonce ++ (ciphertext ++ tag)) refl)
          (take-length_append 12 nonce (ciphertext ++ tag) (sym hn))

    body_part : drop (length magic + 12) envelope_of ≡ ciphertext ++ tag
    unfolding envelope_of
    body_part = rw (← append_assoc magic nonce (ciphertext ++ tag)) (
        drop-length_append (length magic + 12) (magic ++ nonce) (ciphertext ++ tag)
          (omega (arith, length-append magic nonce)))

    pub ciphertext_part :
        take (length envelope_of - 16 - (length magic + 12)) (drop (length magic + 12) envelope_of)
        ≡ ciphertext
    ciphertext_part = rw body_part (
        take-length_append (length envelope_of - 16 - (length magic + 12)) ciphertext tag
          (omega (arith, length-envelope_of, length-magic)))

    front : Text
    front = magic ++ nonce ++ ciphertext

    envelope_of-front : envelope_of ≡ front ++ tag
    unfolding envelope_of front
    envelope_of-front = simp append_assoc

    length-front : length front ≡ 17 + length ciphertext
    unfolding front
    length-front =
        omega (
          arith,
          length-magic,
          length-append (magic ++ nonce) ciphertext,
          length-append magic nonce,
        )

    pub tag_part : drop (length envelope_of - 16) envelope_of ≡ tag
    tag_part =
        let fits : length envelope_of - 16 ≡ length front =
          omega (arith, length-envelope_of, length-front) in
        rw (fits, envelope_of-front) (drop-length_append (length front) front tag refl)

    starts_with-envelope_of : starts_with envelope_of magic ≡ true
    unfolding envelope_of
    starts_with-envelope_of = starts_with-append magic (nonce ++ (ciphertext ++ tag))

    -- Decryption of an envelope that is laid out like that.
    open_envelope-layout :
        (plaintext : Text)
        → Opened aes (digest passphrase) nonce ciphertext tag plaintext
        → open_envelope sha aes envelope_of passphrase ≡ ok plaintext
    unfolding open_envelope
    open_envelope-layout plaintext o =
        rw (nonce_part, o.starts, tag_part, o.tags, ciphertext_part, o.updates, o.finishes, o.whole)

    pub decrypt_wallet_record-layout :
        (plaintext : Text)
        → Opened aes (digest passphrase) nonce ciphertext tag plaintext
        → decrypt_wallet_record sha aes envelope_of passphrase ≡ ok plaintext
    unfolding decrypt_wallet_record
    decrypt_wallet_record-layout plaintext o = ground (
      arith,
      length-envelope_of,
      length-magic,
      starts_with-envelope_of,
      open_envelope-layout plaintext o,
    )

  -- A record that was encrypted is decrypted under the same passphrase to the same bytes, whatever the
  -- random nonce of 12 bytes.
  pub decrypt-encrypt_wallet_record :
      (laws : AeadLaws aes) (nonce plaintext passphrase envelope : Text)
      → length nonce ≡ 12
      → encrypt_wallet_record sha aes (ok nonce) plaintext passphrase ≡ ok envelope
      → decrypt_wallet_record sha aes envelope passphrase ≡ ok plaintext
  decrypt-encrypt_wallet_record laws nonce plaintext passphrase envelope hn h =
      let e = encrypt_wallet_record_inversion nonce plaintext passphrase envelope h in
      let opened = laws.opens (digest passphrase) nonce plaintext e.head e.last e.tag e.sealing in
      let ht = laws.length-tag e.sealing.finished e.tag e.sealing.tags in
      rw e.layout (
        unfold envelope_of in
        decrypt_wallet_record-layout nonce passphrase (e.head ++ e.last) e.tag hn ht plaintext
          opened)
