-- ===== src/Fabric/Issue/Sample.antt =====
-- A ledger that answers with one schema and one credential, and the attributes of a subject.
use dzta.Prelude.{ok, none, some, true, false, [], ◌∷◌}
use dzta.Prelude.Int.{pos}
use dzta.Interfaces.Askar.{Entries}
use dzta.Fabric.Models.{CredentialAttributes, CredentialMetadata, CredentialSchema}
use dzta.Fabric.Ledger.{Ledger}
use dzta.Fabric.Issue.{Uuids, Dates}

abbrev pub uuids : Uuids Entries
uuids = record { new_v4 = λ w. (8 ∷ [], w) }

abbrev pub dates : Dates
dates = record { from_timestamp = λ n. some n; to_rfc3339 = λ n. 50 ∷ []; is_rfc3339 = λ s. true }

abbrev pub metadata : CredentialMetadata
metadata = record {
  credential_id = 8 ∷ [];
  schema_id = 3 ∷ [];
  issuer_did = 4 ∷ [];
  subject_did = 5 ∷ [];
  issued_at = pos 5;
  expires_at = pos 9;
  revoked = false;
  revoked_at = none;
  zkp_supported = true;
  proofable_fields = [];
}

abbrev pub schema : CredentialSchema
schema = record {
  schema_id = 3 ∷ [];
  issuer_did = 4 ∷ [];
  name = [];
  version = [];
  attributes = [];
  created = pos 0;
}

abbrev pub quiet_ledger : Ledger Entries
quiet_ledger = record {
  is_credential_revoked = λ id w. (ok false, w);
  get_credential_metadata = λ id w. (ok metadata, w);
  get_schema = λ id w. (ok schema, w);
  record_credential_metadata = λ id schema_id issuer_did subject_did expires_at w. (ok [], w);
  revoke_credential = λ id w. (ok [], w);
  register_schema = λ id issuer_did name version attributes w. (ok [], w);
}

abbrev pub attributes : CredentialAttributes
attributes = record {
  user_role_id = 97 ∷ [];
  org_id = 98 ∷ [];
  clearance_level = 3;
  timestamp = pos 5;
}
