-- ===== src/Schema/Examples.antt =====
-- A subject with a name and a clearance.
use dzta.Prelude.{◌≡◌, ◌↔◌, Text, ok, Bool, true, false, List, [], ◌∷◌, utf8, All}
use dzta.Prelude.Int.{pos}
use dzta.Interfaces.Witnesses.Proofs.{Document, reads, string, integer, empty, field}
use dzta.Schema.{SchemaAttribute, validate_fields}
use dzta.Schema.Conforms.{HasAttribute, validate_fields_iff}

abbrev subject : Document
subject = field (105 ∷ []) (string (97 ∷ [])) (field (108 ∷ []) (integer (pos 5)) empty)

abbrev attributes : List SchemaAttribute
attributes =
    record { name = 105 ∷ []; attr_type = utf8 "string"; predicate = false }
    ∷ record { name = 108 ∷ []; attr_type = utf8 "integer"; predicate = true }
    ∷ []

abbrev no_times : Text → Bool
no_times s = false

validate_fields_iff_example :
    (validate_fields (reads subject) no_times attributes subject ≡ ok tt)
    ↔ All (HasAttribute (reads subject) no_times subject) attributes
validate_fields_iff_example = validate_fields_iff (reads subject) no_times attributes subject
