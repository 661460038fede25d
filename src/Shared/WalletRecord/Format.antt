-- ===== src/Shared/WalletRecord/Format.antt =====
-- Which envelopes are decrypted.
use dzta.Prelude.{
  ℕ, zero, suc, ◌-◌, ◌≤◌, ◌≡◌, ◌↔◌, refl, ap, sym, ◌∙◌, Text, ok, map_err, >>=-eq-ok, map_err-eq-ok,
  ok-injective, [], ◌∷◌, ◌++◌, length, length-drop, length-take, take, drop, starts_with, true,
  arith, Bool-cases, inl, inr, ◌==◌, ==_iff, ◌&&◌,
}
use mathlib.Core.Path.{subst}
use dzta.Interfaces.Crypto.{Sha256, Aes256Gcm, Opened}
use dzta.Shared.WalletRecord.{magic, failed, decrypt_wallet_record, open_envelope}
use dzta.Shared.WalletRecord.RoundTrip.{
  envelope_of, nonce_part, ciphertext_part, tag_part, decrypt_wallet_record-layout, length-magic,
}

take-drop : (n : ℕ) (s : Text) → s ≡ take n s ++ drop n s
take-drop zero s = refl
take-drop (suc n) [] = refl
take-drop (suc n) (c ∷ s) = ap (λ t. c ∷ t) (take-drop n s)

-- A text that starts with another is that one and a rest.
starts_with-split : (s p : Text) → starts_with s p ≡ true → s ≡ p ++ drop (length p) s
starts_with-split s [] h = refl
starts_with-split [] (c ∷ p) h = absurd (cc (h))
starts_with-split (d ∷ s) (c ∷ p) h = elim (Bool-cases (d == c)) [
  | inr other ↦ absurd (cc (h, other))
  | inl same ↦
      let e = (==_iff d c).0 same in
      let rest = starts_with-split s p (sym (ap (λ b. b && starts_with s p) same) ∙ h) in
      λ i. e i ∷ rest i
]

module _ {Crypter : Type 0} (sha : Sha256) (aes : Aes256Gcm Crypter) where
  -- The magic, a nonce of 12 bytes, a ciphertext and a tag of 16 bytes, which the cipher opens under the
  -- digest of the passphrase.
  pub record Framed (envelope passphrase plaintext : Text) : Type 0 where
    pub nonce : Text
    pub ciphertext : Text
    pub tag : Text
    pub nonce_length : length nonce ≡ 12
    pub tag_length : length tag ≡ 16
    pub layout : envelope ≡ magic ++ (nonce ++ (ciphertext ++ tag))
    pub opened : Opened aes (sha.digest passphrase) nonce ciphertext tag plaintext

  -- Parts of a length of a text that is long enough.
  record Parts (rest : Text) : Type 0 where
    nonce : Text
    ciphertext : Text
    tag : Text
    nonce_length : length nonce ≡ 12
    tag_length : length tag ≡ 16
    layout : rest ≡ nonce ++ (ciphertext ++ tag)

  long-Parts : (rest : Text) → 28 ≤ length rest → Parts rest
  long-Parts rest long =
      let body = drop 12 rest in
      let k = length body - 16 in
      record {
        nonce = take 12 rest;
        ciphertext = take k body;
        tag = drop k body;
        nonce_length = omega (arith, length-take 12 rest);
        tag_length = omega (arith, length-drop k body, length-drop 12 rest);
        layout = take-drop 12 rest ∙ ap (λ t. take 12 rest ++ t) (take-drop k body);
      }

  module _ (nonce passphrase ciphertext tag plaintext : Text) (hn : length nonce ≡ 12)
      (ht : length tag ≡ 16) where
    open_envelope-Opened :
        open_envelope sha aes (envelope_of sha aes nonce passphrase ciphertext tag hn ht) passphrase
          ≡ ok plaintext
        → Opened aes (sha.digest passphrase) nonce ciphertext tag plaintext
    unfolding open_envelope
    open_envelope-Opened h =
        let h₀ =
          rw
            (
              open_envelope,
              nonce_part sha aes nonce passphrase ciphertext tag hn ht,
              tag_part sha aes nonce passphrase ciphertext tag hn ht,
              ciphertext_part sha aes nonce passphrase ciphertext tag hn ht,
            )
            at h in
        let (start, starts, h₁) =
          >>=-eq-ok
            (map_err (failed "Failed to initialize decryption: ")
              (aes.new_decrypt (sha.digest passphrase) nonce))
            _ h₀ in
        let (tagged, tags, h₂) =
          >>=-eq-ok (map_err (failed "Failed to set authentication tag: ") (aes.set_tag start tag))
            _ h₁ in
        let (first, updates, h₃) =
          >>=-eq-ok
            (map_err (failed "Failed to decrypt wallet record: ") (aes.update tagged ciphertext)) _
            h₂ in
        let (second, finishes, h₄) = >>=-eq-ok (map_err _ (aes.finalize first.1)) _ h₃ in
        record {
          start = start;
          tagged = tagged;
          updated = first.1;
          finished = second.1;
          head = first.0;
          last = second.0;
          starts = map_err-eq-ok _ _ starts;
          tags = map_err-eq-ok _ _ tags;
          updates = map_err-eq-ok _ _ updates;
          finishes = map_err-eq-ok _ _ finishes;
          whole = ok-injective h₄;
        }

  -- What passes the check of the shape.
  record Shaped (envelope passphrase plaintext : Text) : Type 0 where
    long : 33 ≤ length envelope
    starts : starts_with envelope magic ≡ true
    opens : open_envelope sha aes envelope passphrase ≡ ok plaintext

  decrypt_wallet_record-Shaped :
      (envelope passphrase plaintext : Text)
      → decrypt_wallet_record sha aes envelope passphrase ≡ ok plaintext
      → Shaped envelope passphrase plaintext
  unfolding decrypt_wallet_record
  decrypt_wallet_record-Shaped envelope passphrase plaintext h = ground (arith, length-magic)

  -- A record decrypts to a plaintext exactly when it is the magic, a nonce of 12 bytes, a ciphertext and
  -- a tag of 16 bytes, and the cipher opens the ciphertext under that nonce and tag and the digest of
  -- the passphrase to the plaintext.
  pub decrypt_wallet_record_iff :
      (envelope passphrase plaintext : Text)
      → (decrypt_wallet_record sha aes envelope passphrase ≡ ok plaintext)
        ↔ Framed envelope passphrase plaintext
  unfolding envelope_of
  decrypt_wallet_record_iff envelope passphrase plaintext = (
    λ h.
        let shaped = decrypt_wallet_record-Shaped envelope passphrase plaintext h in
        let rest = drop (length magic) envelope in
        let p =
          long-Parts rest
            (omega (arith, shaped.long, length-drop (length magic) envelope, length-magic)) in
        let layout =
          starts_with-split envelope magic shaped.starts ∙ ap (λ t. magic ++ t) p.layout in
        record {
          nonce = p.nonce;
          ciphertext = p.ciphertext;
          tag = p.tag;
          nonce_length = p.nonce_length;
          tag_length = p.tag_length;
          layout = layout;
          opened =
              open_envelope-Opened p.nonce passphrase p.ciphertext p.tag plaintext p.nonce_length
                p.tag_length
                (subst (λ e. open_envelope sha aes e passphrase ≡ ok plaintext) layout
                  shaped.opens);
        },
    λ f.
        subst (λ e. decrypt_wallet_record sha aes e passphrase ≡ ok plaintext) (sym f.layout)
          (decrypt_wallet_record-layout sha aes f.nonce passphrase f.ciphertext f.tag f.nonce_length
            f.tag_length plaintext f.opened),
  )
