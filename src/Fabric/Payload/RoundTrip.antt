-- ===== src/Fabric/Payload/RoundTrip.antt =====
-- The attributes that are read from a credential are those that were written.
use dzta.Prelude.{Text, ok, some, ◌≡◌, refl, ◌∙◌, true, utf8, HashMap, lookup, distinct_keys}
use dzta.Interfaces.Json.{Json, JsonBuilders, JsonLaws}
use dzta.Fabric.Models.{CredentialAttributes}
use dzta.Fabric.Payload.{subject_payload, verifiable_credential, attributes_of}

module _ {Value : Type 0} (json : Json Value) (laws : JsonLaws json)
    (builders : JsonBuilders Value) where
  pub get_object :
      (fields : HashMap Value) (k : Text) {v : Value}
      → distinct_keys fields ≡ true
      → lookup k fields ≡ some v
      → json.get (json.object fields) k ≡ some v
  get_object fields k distinct found = laws.get-object fields k distinct ∙ found

  subject_found :
      (issuer_did issued expires : Text) (payload : Value)
      → json.get
          (verifiable_credential json builders issuer_did issued expires payload)
          (utf8 "credentialSubject")
        ≡ some payload
  unfolding verifiable_credential utf8
  subject_found issuer_did issued expires payload = get_object _ _ refl refl

  module _ (subject_did : Text) (attributes : CredentialAttributes) where
    abbrev payload_of : Value
    payload_of = subject_payload json builders subject_did attributes

    role_found :
        json.get payload_of (utf8 "userRoleId") ≡ some (json.string attributes.user_role_id)
    unfolding subject_payload utf8
    role_found = get_object _ _ refl refl

    org_found : json.get payload_of (utf8 "orgId") ≡ some (json.string attributes.org_id)
    unfolding subject_payload utf8
    org_found = get_object _ _ refl refl

    level_found :
        json.get payload_of (utf8 "clearanceLevel")
        ≡ some (json.number_u64 attributes.clearance_level)
    unfolding subject_payload utf8
    level_found = get_object _ _ refl refl

    time_found :
        json.get payload_of (utf8 "timestamp") ≡ some (json.number_i64 attributes.timestamp)
    unfolding subject_payload utf8
    time_found = get_object _ _ refl refl

    pub attributes_of-verifiable_credential :
        (issuer_did issued expires : Text)
        → attributes_of json builders
            (verifiable_credential json builders issuer_did issued expires payload_of)
          ≡ ok attributes
    unfolding attributes_of
    attributes_of-verifiable_credential issuer_did issued expires =
        rw
          (
            subject_found issuer_did issued expires payload_of,
            role_found,
            laws.as_str-string attributes.user_role_id,
            org_found,
            laws.as_str-string attributes.org_id,
            level_found,
            laws.as_u64-number_u64 attributes.clearance_level,
            time_found,
            laws.as_i64-number_i64 attributes.timestamp,
          )
          refl
