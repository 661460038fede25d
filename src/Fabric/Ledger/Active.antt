-- ===== src/Fabric/Ledger/Active.antt =====
-- When a credential counts as active.
use dzta.Prelude.{
  Text, ok, ok-injective, ◌≡◌, ◌↔◌, refl, ap, sym, ◌∙◌, Bool, true, false, not, arith,
}
use dzta.Prelude.Int.{◌≤ℤ◌, leb_ℤ}
use dzta.Effects.{and_then-eq-ok, lift, lift-eq-ok}
use dzta.Interfaces.Host.{Clock}
use dzta.Fabric.Config.{forbid, forbid-eq-ok}
use dzta.Fabric.Models.{CredentialMetadata}
use dzta.Fabric.Ledger.{Ledger, verify_credential_active}

-- The ledger answers that the credential is not revoked, and then that it expires no earlier than the
-- clock's time.
pub record Active {World : Type 0} (clock : Clock World) (ledger : Ledger World)
    (credential_id : Text) (world last : World) : Type 0 where
  pub between : World
  pub metadata : CredentialMetadata
  pub not_revoked : ledger.is_credential_revoked credential_id world ≡ (ok false, between)
  pub found : ledger.get_credential_metadata credential_id between ≡ (ok metadata, last)
  pub in_time : clock.now last ≤ℤ metadata.expires_at

not-eq-false : (b : Bool) → not b ≡ false → b ≡ true
not-eq-false true h = refl
not-eq-false false h = cc

module _ {World : Type 0} (clock : Clock World) (ledger : Ledger World) where
  active :
      (credential_id : Text) (world last : World) (b : Bool)
      → verify_credential_active clock ledger credential_id world ≡ (ok b, last)
      → Active clock ledger credential_id world last × (b ≡ true)
  unfolding verify_credential_active
  active credential_id world last b h =
      let (revoked, w₁, asked, h₁) =
        and_then-eq-ok (ledger.is_credential_revoked credential_id world) _ h in
      let (_, w₂, allowed, h₂) = and_then-eq-ok (lift (forbid revoked _) w₁) _ h₁ in
      let (valid, same₁) = lift-eq-ok (forbid revoked _) allowed in
      let (metadata, w₃, found, h₃) =
        and_then-eq-ok (ledger.get_credential_metadata credential_id w₂) _ h₂ in
      let (_, w₄, checked, h₄) =
        and_then-eq-ok (lift (forbid (not (leb_ℤ (clock.now w₃) metadata.expires_at)) _) w₃) _ h₃ in
      let (fresh, same₂) =
        lift-eq-ok (forbid (not (leb_ℤ (clock.now w₃) metadata.expires_at)) _) checked in
      let end : w₃ ≡ last = same₂ ∙ ap (λ r. r.1) h₄ in
      let unexpired =
        not-eq-false (leb_ℤ (clock.now w₃) metadata.expires_at) (forbid-eq-ok _ _ fresh) in
      (
        record {
          between = w₁;
          metadata = metadata;
          not_revoked = asked ∙ ap (λ r. (ok r, w₁)) (forbid-eq-ok revoked _ valid);
          found =
              ap (λ w. ledger.get_credential_metadata credential_id w) same₁
              ∙ found
              ∙ ap (λ w. (ok metadata, w)) end;
          in_time = ground arith;
        },
        sym (ok-injective (ap (λ r. r.0) h₄)),
      )

  verified :
      (credential_id : Text) (world last : World)
      → Active clock ledger credential_id world last
      → verify_credential_active clock ledger credential_id world ≡ (ok true, last)
  unfolding verify_credential_active
  verified credential_id world last a =
      let early : leb_ℤ (clock.now last) a.metadata.expires_at ≡ true = ground (arith, a.in_time) in
      rw (a.not_revoked, a.found, early) refl

  -- The check returns true exactly when the ledger answers that the credential is not revoked and that
  -- it has not expired at the clock's time, and it never returns false.
  pub verify_credential_active_iff :
      (credential_id : Text) (world last : World) (b : Bool)
      → (verify_credential_active clock ledger credential_id world ≡ (ok b, last))
        ↔ (Active clock ledger credential_id world last × (b ≡ true))
  verify_credential_active_iff credential_id world last b = (
    active credential_id world last b,
    λ h. verified credential_id world last h.0 ∙ ap (λ r. (ok r, last)) (sym h.1),
  )
