-- ===== src/Transport/Outcome.antt =====
-- What the client makes of a response.
use dzta.Prelude.{
  ℕ, ◌≡◌, ◌↔◌, refl, ap, Text, Result, ok, map_err-eq-ok, ◌&&◌, leb, ltb, Bool-cases, inl, inr,
  arith, ◌++◌, ◌∷◌, [], none, some, utf8, ◌∙◌, ◌≤◌, ◌<◌, Result-cases,
}
use dzta.Effects.{and_then-eq-ok, map_failure, map_failure-eq-ok, lift-eq-ok}
use dzta.Transport.{
  Gateway, Response, ProofArtifact, ProofEnvelope, TransportConfig, parse_json, handle_response,
  collect_proof, target_url, get_method, http,
}

parse_json_iff :
    {A : Type 0} (from_str : Text → Result Text A) (r : Response) (a : A)
    → (parse_json from_str r ≡ ok a) ↔ ((body : Text) × (r.text ≡ ok body) × (from_str body ≡ ok a))
unfolding parse_json
parse_json_iff from_str r a = elim (Result-cases r.text) [
  | inl (body, e) ↦ (
    λ h. (body, e, map_err-eq-ok _ (from_str body) (rw (parse_json, e) at h)),
    λ p. rw (parse_json, p.1, p.2),
  )
  | inr (m, e) ↦
      (λ h. absurd (let f = rw (parse_json, e) at h in cc (f)), λ p. absurd (cc (p.1, e)))
]

module _ {Payload World : Type 0} (gateway : Gateway Payload World) where
  -- An envelope is taken exactly from a response whose status is a success, whose body can be read, and
  -- whose body reads as that envelope.
  pub handle_response_iff :
      (r : Response) (envelope : ProofEnvelope)
      → (handle_response gateway r ≡ ok envelope) ↔ (
          (200 ≤ r.status)
          × (r.status < 300)
          × ((body : Text) × (r.text ≡ ok body) × (gateway.envelope_from_str body ≡ ok envelope)))
  unfolding handle_response
  handle_response_iff r envelope =
      let parses = parse_json_iff gateway.envelope_from_str r envelope in
      elim (Bool-cases (leb 200 r.status && ltb r.status 300)) [
        | inl success ↦
            let bounds : (200 ≤ r.status) × (r.status < 300) = (ground arith, ground arith) in
            rw (handle_response, success) (λ h. (bounds.0, bounds.1, parses.0 h), λ p. parses.1 p.2)
        | inr failure ↦ (
          λ h. absurd (let f = rw (handle_response, failure) at h in cc (f)),
          λ p. absurd (ground arith),
        )
      ]

  -- Collecting a proof gives an artifact exactly when the gateway answers the GET of the request's path,
  -- with the request's id as the only header, by a body that reads as that artifact. The status has no
  -- part in it, so a rejection whose body reads is taken too.
  pub collect_proof_iff :
      (c : TransportConfig) (request_id : Text) (artifact : ProofArtifact) (world after : World)
      → (collect_proof gateway c request_id world ≡ (ok artifact, after)) ↔ (
          (status : ℕ) × (body : Text) × (gateway.send
              (record {
                method = get_method;
                url = target_url c (some (utf8 "/api/v1/resource/" ++ request_id));
                headers = (utf8 "X-DZTA-Request-Id", request_id) ∷ [];
                body = none;
              })
              world
            ≡ (ok (record { status = status; text = ok body }), after))
          × (gateway.artifact_from_str body ≡ ok artifact))
  unfolding collect_proof
  collect_proof_iff c request_id artifact world after = (
    λ h.
        let (r, w₁, sends, h₁) = and_then-eq-ok (map_failure http (gateway.send _ world)) _ h in
        let (parses, ends) = lift-eq-ok (parse_json gateway.artifact_from_str r) h₁ in
        let (body, reads, is) = (parse_json_iff gateway.artifact_from_str r artifact).0 parses in
        (
          r.status,
          body,
          map_failure-eq-ok http (gateway.send _ world) sends
              ∙ (λ i. (ok (record { status = r.status; text = reads i }), ends i)),
          is,
        ),
    λ p.
        let (status, body, sends, is) = p in
        rw (collect_proof, sends)
          (ap (λ r. (r, after))
            ((parse_json_iff gateway.artifact_from_str _ artifact).1 (body, refl, is))),
  )
