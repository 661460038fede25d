-- ===== src/Issuer/Agreement.antt =====
-- The two signers of dzta-issuer/src/signer.rs give the same proof values.
use dzta.Prelude.{
  ℕ, Text, ok, ◌++◌, ◌≡◌, refl, Bool, true, false, ◌||◌, [], ◌∷◌, ◌==◌, any, Bool-cases, inl, inr,
  sym, ap, ◌∙◌, ==_iff, none, some, utf8, leb, ltb, ◌&&◌,
}
use dzta.Interfaces.Groth16.{Base64}
use dzta.Interfaces.Http.{HttpResponse}
use dzta.Interfaces.Json.{Json}
use dzta.Interfaces.Signatures.{Ed25519, Multibase, BearerClient}
use dzta.Issuer.Signer.{LocalCredentialSigner, sign_value}
use dzta.Issuer.Vault.{
  VaultCredentialSigner, VaultKeyReaders, VaultKeyResponse, segment, transit_url, signing_body,
  read_response, get_key_type, vault_sign, proof_value_of,
}

-- A byte that is not in a text.
abbrev pub absent : ℕ → Text → Bool
absent x s = any (λ c. c == x) s

segment-absent : (x : ℕ) (found s : Text) → absent x s ≡ false → segment x found s ≡ found
segment-absent x found [] h = refl
segment-absent x found (c ∷ s) h = elim (Bool-cases (c == x)) [
  | inl same ↦ absurd (cc (h, same))
  | inr other ↦ rw other (segment-absent x found s (sym (ap (λ b. b || absent x s) other) ∙ h))
]

segment-append :
    (x : ℕ) (found before s : Text) → absent x s ≡ false → segment x found (before ++ x ∷ s) ≡ s
segment-append x found [] s h = rw ((==_iff x x).1 refl) (segment-absent x s s h)
segment-append x found (c ∷ before) s h = elim (Bool-cases (c == x)) [
  | inl same ↦ rw same (segment-append x (before ++ x ∷ s) before s h)
  | inr other ↦ rw other (segment-append x found before s h)
]

module _ {Value World : Type 0} (json : Json Value) (readers : VaultKeyReaders Value)
    (standard url_safe : Base64) (multibase : Multibase) (client : BearerClient World)
    (vault : VaultCredentialSigner) (ed : Ed25519)
    (signer : LocalCredentialSigner ed url_safe) where
  -- Vault answers both requests of a signing with success, and the second with the signature of the
  -- signer's key after a version and a colon.
  pub record Served (payload : Text) (world last : World) : Type 0 where
    pub key_answer : HttpResponse
    pub key_body : Text
    pub key : VaultKeyResponse Value
    pub sign_answer : HttpResponse
    pub sign_body : Text
    pub version : Text
    pub asked : World
    pub told : World
    pub posted : World
    pub key_asked :
        client.get
          (transit_url json readers standard url_safe multibase client vault "/v1/transit/keys/")
          vault.token
          world
        ≡ (ok key_answer, asked)
    pub key_success : (leb 200 key_answer.status && ltb key_answer.status 300) ≡ true
    pub key_told : client.text key_answer asked ≡ (ok key_body, told)
    pub key_read : readers.key_response key_body ≡ ok key
    pub sign_asked :
        client.post
          (transit_url json readers standard url_safe multibase client vault "/v1/transit/sign/")
          vault.token
          (json.to_string (
            signing_body json readers standard url_safe multibase client vault
              (elim key.key_type [ none ↦ utf8 "ed25519" | some t ↦ t ])
              payload))
          told
        ≡ (ok sign_answer, posted)
    pub sign_success : (leb 200 sign_answer.status && ltb sign_answer.status 300) ≡ true
    pub sign_told : client.text sign_answer posted ≡ (ok sign_body, last)
    pub sign_read :
        readers.sign_response sign_body
        ≡ ok (
            version
            ++ b':' ∷ standard.encode (ed.signature_bytes (ed.sign signer.signing_key payload)))

  proof_value_of-sign_value :
      (clean : (bytes : Text) → absent b':' (standard.encode bytes) ≡ false)
      (version payload : Text)
      → proof_value_of json readers standard url_safe multibase client vault (
          version
          ++ b':' ∷ standard.encode (ed.signature_bytes (ed.sign signer.signing_key payload)))
        ≡ ok (sign_value ed url_safe signer payload)
  unfolding proof_value_of sign_value
  proof_value_of-sign_value clean version payload =
      let bytes = ed.signature_bytes (ed.sign signer.signing_key payload) in
      let s = version ++ b':' ∷ standard.encode bytes in
      rw
        (
          proof_value_of,
          segment-append b':' s version (standard.encode bytes) (clean bytes),
          standard.decode-encode bytes,
        )
        refl

  -- When base64 texts have no colon and Vault serves the signature of a key, the Vault signer returns
  -- the proof value that the local signer with that key makes.
  pub vault_sign-sign_value :
      (clean : (bytes : Text) → absent b':' (standard.encode bytes) ≡ false) (payload : Text)
      (world last : World)
      → Served payload world last
      → vault_sign json readers standard url_safe multibase client vault payload world
        ≡ (ok (sign_value ed url_safe signer payload), last)
  unfolding vault_sign get_key_type read_response
  vault_sign-sign_value clean payload world last served =
      rw
        (
          served.key_asked,
          served.key_told,
          served.key_success,
          served.key_read,
          served.sign_asked,
          served.sign_told,
          served.sign_success,
          served.sign_read,
          proof_value_of-sign_value clean served.version payload,
        )
        refl
