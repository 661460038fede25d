-- ===== src/Fabric/Ledger.antt =====
-- The ledger as the credential manager sees it, and the check that a credential is active.
pub mod Active
use dzta.Prelude.{Text, ok, ◌++◌, Bool, true, utf8, List, not}
use dzta.Prelude.Int.{ℤ, leb_ℤ}
use dzta.Errors.{WalletError, revocation_error}
use dzta.Effects.{Io, lift, ◌>>=◌}
use dzta.Interfaces.Host.{Clock}
use dzta.Schema.{SchemaAttribute}
use dzta.Fabric.Config.{forbid}
use dzta.Fabric.Models.{CredentialMetadata, CredentialSchema}

-- The methods of `FabricClient` that the credential manager calls.
pub record Ledger (World : Type 0) : Type 0 where
  pub is_credential_revoked : Text → Io World WalletError Bool
  pub get_credential_metadata : Text → Io World WalletError CredentialMetadata
  pub get_schema : Text → Io World WalletError CredentialSchema
  -- the credential's id, the schema's, the issuer, the subject, and when it expires
  pub record_credential_metadata : Text → Text → Text → Text → ℤ → Io World WalletError Text
  pub revoke_credential : Text → Io World WalletError Text
  -- the schema's id, the issuer, the name, the version and the attributes
  pub register_schema : Text → Text → Text → Text → List SchemaAttribute → Io World WalletError Text

module _ {World : Type 0} (clock : Clock World) (ledger : Ledger World) where
  open ledger use {is_credential_revoked, get_credential_metadata}

  -- verify_credential_active, which the client and the credential manager both have.
  unfoldable pub verify_credential_active : Text → Io World WalletError Bool
  verify_credential_active credential_id = do
    is_revoked ← is_credential_revoked credential_id
    _ ← lift (forbid is_revoked (revocation_error (utf8 "Credential revoked: " ++ credential_id)))
    metadata ← get_credential_metadata credential_id
    _ ← (λ world.
        lift
          (forbid (not (leb_ℤ (clock.now world) metadata.expires_at))
            (revocation_error (utf8 "Credential expired: " ++ credential_id)))
          world)
    lift (ok true)
