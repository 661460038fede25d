-- ===== src/Transport/Requests.antt =====
-- transport-engine/src/transport.rs: how a ProofRequest is built. Its metadata are in the order of a
-- BTreeMap, of their keys.
use dzta.Prelude.{Text, none, some, Bool, true, false, List, [], ◌∷◌, ltb, text_eq, if◌then◌else◌}
use dzta.Transport.{ProofRequest}

-- The order of strings by their bytes.
abbrev precedes : Text → Text → Bool
precedes [] [] = false
precedes [] (d ∷ t) = true
precedes (c ∷ s) [] = false
precedes (c ∷ s) (d ∷ t) =
    let rest = precedes s t in if ltb c d then true else if ltb d c then false else rest

-- BTreeMap::insert
abbrev pub insert_key : Text → Text → List (Text × Text) → List (Text × Text)
insert_key key value [] = (key, value) ∷ []
insert_key key value ((k, v) ∷ entries) =
    let rest = insert_key key value entries in
    if text_eq key k
    then (key, value) ∷ entries
    else if precedes key k
    then (key, value) ∷ (k, v) ∷ entries
    else (k, v) ∷ rest

module _ {Payload : Type 0} where
  -- The id is drawn from the world, and the payload is the empty object.
  abbrev new_request :
      {World : Type 0}
      → (World → Text × World)
      → Payload
      → Text
      → Text
      → Text
      → World
      → ProofRequest Payload × World
  new_request new_uuid empty action device_id edge_id world =
      let (request_id, after) = new_uuid world in
      (
        record {
          request_id = request_id;
          device_id = device_id;
          edge_id = edge_id;
          action = action;
          payload = empty;
          proof = none;
          public_inputs = none;
          revocation_id = none;
          metadata = [];
        },
        after,
      )

  abbrev with_payload : Payload → ProofRequest Payload → ProofRequest Payload
  with_payload payload r = record r { payload = payload }

  abbrev with_proof : Text → Text → ProofRequest Payload → ProofRequest Payload
  with_proof proof public_inputs r = record r {
    proof = some proof;
    public_inputs = some public_inputs;
  }

  abbrev with_revocation_id : Text → ProofRequest Payload → ProofRequest Payload
  with_revocation_id revocation_id r = record r { revocation_id = some revocation_id }

  abbrev with_metadata : Text → Text → ProofRequest Payload → ProofRequest Payload
  with_metadata key value r = record r { metadata = insert_key key value r.metadata }
