-- ===== src/Fabric/Client/Did.antt =====
-- The DIDs that the client generates: generate_did and generate_did_from_public_key.
use dzta.Prelude.{
  ◌≡◌, ◌↔◌, refl, ap, sym, ◌∙◌, Text, ok, map_err, ◌>>=◌, >>=-eq-ok, ok-injective, ◌++◌, length,
  length-append, take, length-take, drop-length_append, starts_with, starts_with-append, true,
  is_empty, utf8, trim, arith, drop,
}
use dzta.Errors.{WalletResult, config_error}
use dzta.Interfaces.Crypto.{Sha256}
use dzta.Interfaces.FabricSdk.{PublicKeys, Hex}
use dzta.Fabric.Config.{forbid}
use dzta.Fabric.Config.Files.{config_failure}

unfoldable pub did_prefix : Text
unfolding utf8
did_prefix = utf8 "did:dzta:"

module _ (sha : Sha256) (hex : Hex) where
  unfoldable pub generate_did_from_public_key : Text → WalletResult Text
  unfolding did_prefix
  generate_did_from_public_key public_key = do
    _ ←
        forbid (is_empty public_key)
          (config_error (utf8 "Cannot generate a DID without a public key"))
    ok (did_prefix ++ hex.encode (take 16 (sha.digest public_key)))

  unfoldable pub generate_did : PublicKeys → Text → WalletResult Text
  generate_did keys public_key_pem = do
    _ ←
        forbid (is_empty (trim public_key_pem))
          (config_error (utf8 "Cannot generate a DID without a public key"))
    public_key ←
        map_err (config_failure "Invalid issuer public key: ")
          (keys.public_key_from_pem public_key_pem)
    public_key_der ←
        map_err (config_failure "Failed to encode issuer public key: ")
          (keys.public_key_to_der public_key)
    generate_did_from_public_key public_key_der

  generated :
      (public_key did : Text)
      → generate_did_from_public_key public_key ≡ ok did
      → did ≡ did_prefix ++ hex.encode (take 16 (sha.digest public_key))
  unfolding generate_did_from_public_key
  generated public_key did h =
      let (_, _, made) = >>=-eq-ok (forbid (is_empty public_key) _) _ h in sym (ok-injective made)

  -- The public key in DER of which a DID was generated.
  source_key :
      (keys : PublicKeys) (pem did : Text)
      → generate_did keys pem ≡ ok did
      → (der : Text) × (generate_did_from_public_key der ≡ ok did)
  unfolding generate_did
  source_key keys pem did h =
      let (_, _, h₁) = >>=-eq-ok (forbid (is_empty (trim pem)) _) _ h in
      let (key, _, h₂) = >>=-eq-ok (map_err _ (keys.public_key_from_pem pem)) _ h₁ in
      let (der, _, h₃) = >>=-eq-ok (map_err _ (keys.public_key_to_der key)) _ h₂ in (der, h₃)

  length-did_prefix : length did_prefix ≡ 9
  unfolding did_prefix
  length-did_prefix = refl

  -- A DID that is generated from a PEM starts with `did:dzta:` and has 41 bytes.
  pub generate_did-shape :
      (keys : PublicKeys) (pem did : Text)
      → generate_did keys pem ≡ ok did
      → (starts_with did (utf8 "did:dzta:") ≡ true) × (length did ≡ 41)
  unfolding did_prefix
  generate_did-shape keys pem did h =
      let (der, made) = source_key keys pem did h in
      let shape = generated der did made in
      let digest = take 16 (sha.digest der) in
      let size : length digest ≡ 16 =
        omega (arith, length-take 16 (sha.digest der), sha.length-digest der) in
      rw shape (
        starts_with-append did_prefix (hex.encode digest),
        omega (
          arith,
          length-append did_prefix (hex.encode digest),
          length-did_prefix,
          hex.length-encode digest,
          size,
        ),
      )

  -- The DIDs of two public keys are the same exactly when the first 16 bytes of the SHA-256 digests of
  -- the keys are.
  pub generate_did_from_public_key_agree :
      (key₁ key₂ did₁ did₂ : Text)
      → generate_did_from_public_key key₁ ≡ ok did₁
      → generate_did_from_public_key key₂ ≡ ok did₂
      → (did₁ ≡ did₂) ↔ (take 16 (sha.digest key₁) ≡ take 16 (sha.digest key₂))
  generate_did_from_public_key_agree key₁ key₂ did₁ did₂ h₁ h₂ =
      let e₁ = generated key₁ did₁ h₁ in
      let e₂ = generated key₂ did₂ h₂ in
      (
        λ same. hex.encode_injective _ _ (
            sym (drop-length_append 9 did_prefix _ (sym length-did_prefix))
            ∙ ap (drop 9) (sym e₁ ∙ same ∙ e₂)
            ∙ drop-length_append 9 did_prefix _ (sym length-did_prefix)),
        λ same. rw (e₁, e₂, same) refl,
      )
