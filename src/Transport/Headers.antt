-- ===== src/Transport/Headers.antt =====
-- The headers that the gateway's filter reads.
use dzta.Prelude.{
  ℕ, ◌+◌, ◌≡◌, refl, Text, Option, none, some, false, ◌&&◌, ok, List, [], ◌∷◌, ◌++◌, map, utf8,
  text_eq, leb, if◌then◌else◌, All, arith, Bool-cases, inl, inr,
}
use dzta.Transport.{
  TransportConfig, new_config, is_blank, validated, header_for, HeaderBundle, proof_headers,
  ProofArtifact, Gateway, result_request,
}

-- Names of headers are compared without regard to case; the name looked for is in lower case.
abbrev lower_byte : ℕ → ℕ
lower_byte c = if leb 65 c && leb c 90 then c + 32 else c

abbrev pub header_of : List (Text × Text) → Text → Option Text
header_of [] name = none
header_of ((n, v) ∷ rest) name =
    let later = header_of rest name in if text_eq (map lower_byte n) name then some v else later

present :
    (name value : Text) → is_blank value ≡ false → header_for name (some value) ≡ (name, value) ∷ []
present name value h = rw (h)

-- The proof headers of values that are not blank.
proof_headers-present :
    (c : TransportConfig) (proof inputs rev_id : Text)
    → is_blank proof ≡ false
    → is_blank inputs ≡ false
    → is_blank rev_id ≡ false
    → proof_headers c
        (record { proof = some proof; public_inputs = some inputs; revocation_id = some rev_id })
      ≡ (c.proof_header, proof)
        ∷ (c.public_inputs_header, inputs)
        ∷ (c.revocation_header, rev_id)
        ∷ []
unfolding proof_headers
proof_headers-present c proof inputs rev_id hp hi hr = rw (
  present c.proof_header proof hp,
  present c.public_inputs_header inputs hi,
  present c.revocation_header rev_id hr,
)

-- The artifact as it is sent with the default header names.
pub record Shows (headers : List (Text × Text)) (proof inputs rev_id : Text) : Type 0 where
  pub shows_proof : header_of headers (utf8 "x-dzta-proof") ≡ some proof
  pub shows_inputs : header_of headers (utf8 "x-dzta-public-inputs") ≡ some inputs
  pub shows_revocation : header_of headers (utf8 "x-dzta-revocation-id") ≡ some rev_id

module _ {Payload World : Type 0} (gateway : Gateway Payload World) where
  -- Under the default header names an artifact whose proof, public inputs and revocation id are not
  -- blank is sent with the three headers that the filter reads, and none of the other headers hides
  -- them, whatever their values.
  pub result_request-Shows :
      (envoy_url rev_id : Text) (artifact : ProofArtifact)
      → is_blank artifact.proof ≡ false
      → is_blank artifact.public_inputs ≡ false
      → is_blank rev_id ≡ false
      → artifact.revocation_id ≡ some rev_id
      → Shows
          (result_request gateway (new_config envoy_url) artifact).headers
          artifact.proof
          artifact.public_inputs
          rev_id
  unfolding result_request new_config utf8
  result_request-Shows envoy_url rev_id artifact hp hi hr h =
      rw
        (
          h,
          proof_headers-present (new_config envoy_url) artifact.proof artifact.public_inputs rev_id
              hp hi hr,
        )
        (record { shows_proof = refl; shows_inputs = refl; shows_revocation = refl })

-- A header whose name and value are not blank.
abbrev pub IsNonBlank : Text × Text → Type 0
IsNonBlank header = (is_blank header.0 ≡ false) × (is_blank header.1 ≡ false)

All-append :
    (P : Text × Text → Type 0) (xs ys : List (Text × Text)) → All P xs → All P ys → All P (xs ++ ys)
All-append P [] ys h k = k
All-append P (x ∷ xs) ys h k = (h.0, All-append P xs ys h.1 k)

header_for-IsNonBlank :
    (name : Text) (value : Option Text)
    → is_blank name ≡ false
    → All IsNonBlank (header_for name value)
header_for-IsNonBlank name none h = tt
header_for-IsNonBlank name (some value) h = elim (Bool-cases (is_blank value)) [
  | inl blank ↦ rw (blank) tt
  | inr filled ↦ rw (filled) ((h, filled), tt)
]

-- A configuration that is accepted names no header blankly.
pub validated-names :
    (c : TransportConfig)
    → validated c ≡ ok tt
    → (is_blank c.proof_header ≡ false)
      × (is_blank c.public_inputs_header ≡ false)
      × (is_blank c.revocation_header ≡ false)
unfolding validated
validated-names c h = (ground arith, ground arith, ground arith)

-- Under a configuration that is accepted no proof header has a blank name or a blank value, whatever
-- the bundle.
pub proof_headers-IsNonBlank :
    (c : TransportConfig) (bundle : HeaderBundle)
    → validated c ≡ ok tt
    → All IsNonBlank (proof_headers c bundle)
unfolding proof_headers
proof_headers-IsNonBlank c bundle h =
    let names = validated-names c h in
    All-append IsNonBlank _ _ (header_for-IsNonBlank c.proof_header bundle.proof names.0) (
      All-append IsNonBlank _ _
        (header_for-IsNonBlank c.public_inputs_header bundle.public_inputs names.1)
        (header_for-IsNonBlank c.revocation_header bundle.revocation_id names.2))
