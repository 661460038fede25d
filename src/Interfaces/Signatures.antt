-- ===== src/Interfaces/Signatures.antt =====
-- ed25519_dalek, multibase and base64's URL alphabet, and the requests of the issuer to Vault. A failure
-- carries the text that the library's error displays.
use dzta.Prelude.{ℕ, ◌≡◌, Text, Result, ok}
use dzta.Interfaces.Http.{HttpResponse}

pub record Ed25519 : Type 1 where
  pub SigningKey : Type 0
  pub VerifyingKey : Type 0
  pub Signature : Type 0
  -- SigningKey::from_bytes, verifying_key().to_bytes(), sign
  pub signing_key : Text → SigningKey
  pub public_bytes : SigningKey → Text
  pub sign : SigningKey → Text → Signature
  pub signature_bytes : Signature → Text
  -- VerifyingKey::from_bytes, Signature::from_slice, verify
  pub verifying_key : Text → Result Text VerifyingKey
  pub signature_from_slice : Text → Result Text Signature
  pub verify : VerifyingKey → Text → Signature → Result Text (Unit {0})

-- The public key of a signing key can be read and verifies what the key has signed, and a signature is
-- read back from its bytes.
pub record Ed25519Laws (ed : Ed25519) : Type 0 where
  pub public : ed.SigningKey → ed.VerifyingKey
  pub verifying_key-public_bytes :
      (key : ed.SigningKey) → ed.verifying_key (ed.public_bytes key) ≡ ok (public key)
  pub signature_from_slice-signature_bytes :
      (s : ed.Signature) → ed.signature_from_slice (ed.signature_bytes s) ≡ ok s
  pub verify-sign :
      (key : ed.SigningKey) (payload : Text)
      → ed.verify (public key) payload (ed.sign key payload) ≡ ok tt

-- multibase::encode with Base58Btc.
pub record Multibase : Type 0 where
  pub encode : Text → Text

-- reqwest with a bearer token: a GET of a url, a POST of a JSON body, and the text of a response.
pub record BearerClient (World : Type 0) : Type 0 where
  pub get : Text → Text → World → Result Text HttpResponse × World
  pub post : Text → Text → Text → World → Result Text HttpResponse × World
  pub text : HttpResponse → World → Result Text Text × World
  -- Display of a StatusCode
  pub status_text : ℕ → Text
