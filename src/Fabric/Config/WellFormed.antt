-- ===== src/Fabric/Config/WellFormed.antt =====
-- `validate` accepts exactly the well-formed profiles.
use dzta.Prelude.{
  Text, ok, err, ◌>>=◌, ◌≡◌, ◌≢◌, ◌↔◌, refl, Bool, true, false, List, [], ◌∷◌, HashMap, lookup,
  some, contains_key, contains_key_iff, keys, is_empty, All,
}
use dzta.Errors.{WalletError, WalletResult}
use dzta.Fabric.Config.{
  ConnectionConfig, PeerConfig, OrdererConfig, OrgConfig, ChannelConfig, require, forbid,
  check_names, check_organizations, check_channels, validate,
}

abbrev pub Defined {ℓ} : {V : Type ℓ} → HashMap V → Text → Type ℓ
Defined {V} entries name = (v : V) × (lookup name entries ≡ some v)

-- A profile in which every name that is referred to is the key of an entry.
pub record WellFormed (config : ConnectionConfig) : Type 0 where
  pub organization : Defined config.organizations config.client.organization
  pub some_peer : config.peers ≢ []
  pub some_orderer : config.orderers ≢ []
  pub some_channel : config.channels ≢ []
  pub organization_peers : All (λ o. All (Defined config.peers) o.1.peers) config.organizations
  pub channels :
      All
        (λ c.
          All (Defined config.orderers) c.1.orderers × All (Defined config.peers) (keys c.1.peers))
        config.channels

-- Checks in sequence pass when each of them does.
both_iff :
    {P Q : Type 0} (first : WalletResult (Unit {0})) (second : WalletResult (Unit {0}))
    → (first ≡ ok tt) ↔ P
    → (second ≡ ok tt) ↔ Q
    → ((first >>= λ _. second) ≡ ok tt) ↔ (P × Q)
both_iff (ok tt) second p q = (λ h. (p.0 refl, q.0 h), λ h. q.1 h.1)
both_iff (err e) second p q = (λ h. absurd (cc (h)), λ h. absurd (cc (p.1 h.0)))

require_iff : (b : Bool) (e : WalletError) → (require b e ≡ ok tt) ↔ (b ≡ true)
require_iff true e = (λ _. refl, λ _. refl)
require_iff false e = (λ h. absurd (cc (h)), λ h. absurd (cc (h)))

require-Defined_iff {ℓ} :
    {V : Type ℓ} (entries : HashMap V) (name : Text) (e : WalletError)
    → (require (contains_key name entries) e ≡ ok tt) ↔ Defined entries name
require-Defined_iff entries name e = (
  λ h. (contains_key_iff name entries).0 ((require_iff (contains_key name entries) e).0 h),
  λ d. (require_iff (contains_key name entries) e).1 ((contains_key_iff name entries).1 d),
)

forbid_empty_iff {ℓ} :
    {V : Type ℓ} (entries : List V) (e : WalletError)
    → (forbid (is_empty entries) e ≡ ok tt) ↔ (entries ≢ [])
forbid_empty_iff [] e = (λ h. absurd (cc (h)), λ h. absurd (h refl))
forbid_empty_iff (x ∷ xs) e = (λ _ h. cc (h), λ _. refl)

check_names_iff :
    {V : Type 0} (entries : HashMap V) (failure : Text → WalletError) (names : List Text)
    → (check_names entries failure names ≡ ok tt) ↔ All (Defined entries) names
unfolding check_names
check_names_iff entries failure [] = (λ _. tt, λ _. refl)
check_names_iff entries failure (name ∷ names) =
    both_iff (require (contains_key name entries) (failure name))
      (check_names entries failure names) (require-Defined_iff entries name (failure name))
      (check_names_iff entries failure names)

check_organizations_iff :
    (peers : HashMap PeerConfig) (organizations : HashMap OrgConfig)
    → (check_organizations peers organizations ≡ ok tt)
      ↔ All (λ o. All (Defined peers) o.1.peers) organizations
unfolding check_organizations
check_organizations_iff peers [] = (λ _. tt, λ _. refl)
check_organizations_iff peers ((org_name, org) ∷ organizations) =
    both_iff (check_names peers _ org.peers) (check_organizations peers organizations)
      (check_names_iff peers _ org.peers) (check_organizations_iff peers organizations)

check_channels_iff :
    (peers : HashMap PeerConfig) (orderers : HashMap OrdererConfig)
    (channels : HashMap ChannelConfig)
    → (check_channels peers orderers channels ≡ ok tt)
      ↔ All
          (λ c. All (Defined orderers) c.1.orderers × All (Defined peers) (keys c.1.peers))
          channels
unfolding check_channels
check_channels_iff peers orderers [] = (λ _. tt, λ _. refl)
check_channels_iff peers orderers ((channel_name, channel) ∷ channels) =
    let (passed, refused) =
      both_iff (check_names orderers _ channel.orderers) _
        (check_names_iff orderers _ channel.orderers)
        (both_iff (check_names peers _ (keys channel.peers))
          (check_channels peers orderers channels) (check_names_iff peers _ (keys channel.peers))
          (check_channels_iff peers orderers channels)) in
    (λ h. let (a, (b, c)) = passed h in ((a, b), c), λ h. refused (h.0.0, (h.0.1, h.1)))

-- A profile passes the validation exactly when the client's organization is defined, there is a peer,
-- an orderer and a channel, and every peer that an organization or a channel names and every orderer
-- that a channel names is defined.
pub validate_iff : (config : ConnectionConfig) → (validate config ≡ ok tt) ↔ WellFormed config
unfolding validate
validate_iff config =
    let steps =
      both_iff (require (contains_key config.client.organization config.organizations) _) _
        (require-Defined_iff config.organizations config.client.organization _)
        (both_iff (forbid (is_empty config.peers) _) _ (forbid_empty_iff config.peers _) (
          both_iff (forbid (is_empty config.orderers) _) _ (forbid_empty_iff config.orderers _) (
            both_iff (forbid (is_empty config.channels) _) _ (forbid_empty_iff config.channels _) (
              both_iff (check_organizations config.peers config.organizations) _
                (check_organizations_iff config.peers config.organizations)
                (check_channels_iff config.peers config.orderers config.channels))))) in
    (
      λ h.
          let (organization, (peers, (orderers, (channels, (references, names))))) = steps.0 h in
          record {
            organization = organization;
            some_peer = peers;
            some_orderer = orderers;
            some_channel = channels;
            organization_peers = references;
            channels = names;
          },
      λ w. steps.1 (
        w.organization,
        (w.some_peer, (w.some_orderer, (w.some_channel, (w.organization_peers, w.channels)))),
      ),
    )
