-- ===== src/Issuer/Signer.antt =====
-- LocalCredentialSigner of dzta-issuer/src/signer.rs.
use dzta.Prelude.{
  Text, ok, map_err, ok_or, ◌>>=◌, ◌++◌, ◌≡◌, refl, Option, none, some, [], ◌∷◌, utf8, ◌==◌,
  if◌then◌else◌, String,
}
use dzta.Errors.{WalletError, WalletResult, signing_error}
use dzta.Interfaces.Signatures.{Ed25519, Ed25519Laws, Multibase}
use dzta.Interfaces.Groth16.{Base64}
use dzta.Interfaces.Askar.{Random}
use dzta.Issuer.{CredentialSignerBackend}

abbrev pub signing_failure : String → Text → WalletError
signing_failure message e = signing_error (utf8 message ++ e)

-- `strip_prefix('u')`
abbrev strip_u : Text → Option Text
strip_u [] = none
strip_u (c ∷ s) = if c == b'u' then some s else none

-- `url_safe` is base64's URL_SAFE_NO_PAD.
module _ (ed : Ed25519) (url_safe : Base64) where
  open ed use {SigningKey}

  pub record LocalCredentialSigner : Type 0 where
    pub signing_key : SigningKey

  pub from_seed : Text → LocalCredentialSigner
  from_seed seed = record { signing_key = ed.signing_key seed }

  unfoldable pub generate :
      {World : Type 0} → Random World → World → WalletResult LocalCredentialSigner × World
  unfolding from_seed
  generate random world =
      let (seed, after) = random.getrandom 32 world in
      (
        map_err (signing_failure "Signing key generation failed: ") seed >>= λ bytes.
            ok (from_seed bytes),
        after,
      )

  unfoldable pub public_key_bytes : LocalCredentialSigner → Text
  public_key_bytes signer = ed.public_bytes signer.signing_key

  pub public_key_multibase_value : Multibase → LocalCredentialSigner → Text
  unfolding public_key_bytes
  public_key_multibase_value multibase signer = multibase.encode (public_key_bytes signer)

  unfoldable pub sign_value : LocalCredentialSigner → Text → Text
  sign_value signer payload =
      b'u' ∷ url_safe.encode (ed.signature_bytes (ed.sign signer.signing_key payload))

  unfoldable pub verify : Text → Text → Text → WalletResult (Unit {0})
  verify public_key payload proof_value = do
    key ← map_err (signing_failure "Invalid credential public key: ") (ed.verifying_key public_key)
    encoded ←
        ok_or (strip_u proof_value) (signing_error (utf8 "Proof value must use base64url encoding"))
    signature_bytes ← map_err (signing_failure "Invalid proof encoding: ") (url_safe.decode encoded)
    signature ←
        map_err (signing_failure "Invalid proof signature: ")
          (ed.signature_from_slice signature_bytes)
    map_err (signing_failure "Credential proof verification failed: ")
        (ed.verify key payload signature)

  -- The local signer as a backend.
  abbrev pub local_backend :
      {World : Type 0} → Multibase → LocalCredentialSigner → CredentialSignerBackend World
  local_backend multibase signer = record {
    public_key_multibase = λ world. (ok (public_key_multibase_value multibase signer), world);
    sign = λ payload world. (ok (sign_value signer payload), world);
  }

  -- A payload that a local signer has signed verifies under the signer's public key.
  pub verify-sign_value :
      (laws : Ed25519Laws ed) (signer : LocalCredentialSigner) (payload : Text)
      → verify (public_key_bytes signer) payload (sign_value signer payload) ≡ ok tt
  unfolding verify public_key_bytes sign_value
  verify-sign_value laws signer payload =
      rw
        (
          laws.verifying_key-public_bytes signer.signing_key,
          url_safe.decode-encode (ed.signature_bytes (ed.sign signer.signing_key payload)),
          laws.signature_from_slice-signature_bytes (ed.sign signer.signing_key payload),
          laws.verify-sign signer.signing_key payload,
        )
        refl
