-- ===== src/Broker/Session.antt =====
-- The binding of a session to a quote, on both sides: bind_session of
-- dzta-gramine-prover/src/attestation.rs with the binding of its main.rs, and the report data that
-- verify_sgx_quote of dzta-attestation-broker/src/routes/datakey.rs expects.
use dzta.Prelude.{
  ℕ, zero, suc, ◌-◌, ◌/◌, ◌%◌, ◌≡◌, refl, ap, sym, Text, [], ◌∷◌, ◌++◌, utf8, length, take, arith,
  take-length_append, min,
}
use dzta.Interfaces.Crypto.{Sha256}

-- u64::to_be_bytes, over the bytes that are left.
unfoldable pub be_bytes : ℕ → ℕ → Text → Text
be_bytes zero n bytes = bytes
be_bytes (suc k) n bytes = be_bytes k (n / 256) ((n % 256) ∷ bytes)

unfoldable pub to_be_bytes : ℕ → Text
unfolding be_bytes
to_be_bytes n = be_bytes 8 n []

-- What the prover's main binds: its public key and the required level.
unfoldable pub binding : Text → ℕ → Text
binding public_key_pem required_clearance_level =
    public_key_pem ++ to_be_bytes required_clearance_level

-- The digest that `bind_session` hands on.
unfoldable pub session_digest : Sha256 → Text → Text
session_digest sha bytes = sha.digest (utf8 "dZTA_SGX_SESSION_v1" ++ bytes)

abbrev pub zeros : ℕ → Text
zeros zero = []
zeros (suc n) = 0 ∷ zeros n

-- `bind_user_report_data`: at most 64 bytes, padded with zeros to 64.
unfoldable pub padded : Text → Text
padded bytes = take (min (length bytes) 64) bytes ++ zeros (64 - min (length bytes) 64)

unfoldable pub bind_session : Sha256 → Text → Text
bind_session sha bytes = padded (session_digest sha bytes)

-- What the broker hashes, from the public key and the level of a request.
unfoldable pub expected_report_data : Sha256 → Text → ℕ → Text
expected_report_data sha enclave_public_key required_clearance_level =
    let binding_bytes = enclave_public_key ++ to_be_bytes required_clearance_level in
    sha.digest (utf8 "dZTA_SGX_SESSION_v1" ++ binding_bytes)

pub expected-session_digest :
    (sha : Sha256) (key : Text) (level : ℕ)
    → expected_report_data sha key level ≡ session_digest sha (binding key level)
unfolding expected_report_data session_digest binding
expected-session_digest sha key level = refl

take-all : (s : Text) → take (length s) s ≡ s
take-all [] = refl
take-all (c ∷ s) = ap (λ t. c ∷ t) (take-all s)

pub take-bind_session :
    (sha : Sha256) (bytes : Text) → take 32 (bind_session sha bytes) ≡ session_digest sha bytes
unfolding bind_session padded session_digest
take-bind_session sha bytes =
    let digest = sha.digest (utf8 "dZTA_SGX_SESSION_v1" ++ bytes) in
    let long : length digest ≡ 32 = sha.length-digest _ in
    let fits : min (length digest) 64 ≡ length digest = omega (arith, long) in
    rw (fits, take-all digest)
      (take-length_append 32 digest (zeros (64 - length digest)) (sym long))
