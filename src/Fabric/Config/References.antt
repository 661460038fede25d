-- ===== src/Fabric/Config/References.antt =====
-- What a loaded profile gives to its getters.
use dzta.Prelude.{
  Text, Result, ok, not, map_err, ok_or-eq-ok, ok-injective, ◌≡◌, ◌≢◌, refl, ap, List, [], ◌∷◌,
  HashMap, lookup, some, keys, All, Bool-cases, inl, inr, text_eq, values,
}
use mathlib.Core.Option
use dzta.Effects.{and_then-eq-ok, lift, map_failure}
use dzta.Interfaces.Host.{FileSystem}
use dzta.Fabric.Config.{
  ConnectionConfig, PeerConfig, OrdererConfig, ChannelConfig, PeerInChannelConfig, validate, forbid,
}
use dzta.Fabric.Config.Getters.{
  get_org_mspid, get_orderer_url, get_peer_config, get_orderer_config, get_channel_peers,
  get_channel_orderers, get_endorsing_peers, endorsing, first,
}
use dzta.Fabric.Config.Files.{from_file}
use dzta.Fabric.Config.WellFormed.{Defined, WellFormed, validate_iff}

-- The getters' results for a channel with those peers and orderers.
pub record Resolved (config : ConnectionConfig) (channel_name : Text) (peers orderers : List Text)
    : Type 0 where
  pub mspid : (id : Text) × (get_org_mspid config config.client.organization ≡ ok id)
  pub url : (u : Text) × (get_orderer_url config ≡ ok u)
  pub peer_configs : All (λ p. (c : PeerConfig) × (get_peer_config config p ≡ ok c)) peers
  pub orderer_configs :
      All (λ o. (c : OrdererConfig) × (get_orderer_config config o ≡ ok c)) orderers
  pub endorsers :
      (names : List Text) × (get_endorsing_peers config channel_name ≡ ok names)
      × All (λ p. (c : PeerConfig) × (get_peer_config config p ≡ ok c)) names

All-lookup {ℓ κ} :
    {V : Type ℓ} (P : V → Type κ) (entries : HashMap V) (k : Text) {v : V}
    → All (λ e. P e.1) entries
    → lookup k entries ≡ some v
    → P v
All-lookup P [] k h e = absurd (cc (e))
All-lookup {V} P ((j, w) ∷ entries) k {v} (p, h) e = elim (Bool-cases (text_eq j k)) [
  | inl same ↦ let found : some w ≡ some v = rw same at e in let eq : w ≡ v = cc in rw (← eq) p
  | inr other ↦ All-lookup P entries k h (rw other at e)
]

All-map {ℓ κ ι} :
    {A : Type ℓ} {P : A → Type κ} {Q : A → Type ι} (xs : List A)
    → ((x : A) → P x → Q x)
    → All P xs
    → All Q xs
All-map [] f h = tt
All-map (x ∷ xs) f (p, h) = (f x p, All-map xs f h)

All-endorsing {κ} :
    (P : Text → Type κ) (peers : HashMap PeerInChannelConfig)
    → All P (keys peers)
    → All P (endorsing peers)
All-endorsing P [] h = tt
All-endorsing P ((name, peer) ∷ peers) (p, h) = elim (Bool-cases peer.endorsing_peer) [
  | inl kept ↦ rw kept (p, All-endorsing P peers h)
  | inr dropped ↦ rw dropped (All-endorsing P peers h)
]

-- What the option of a getter came from.
map-eq-some {ℓ κ} :
    {A : Type ℓ} {B : Type κ} (f : A → B) (o : Option.Option A) {b : B}
    → Option.map f o ≡ some b
    → (a : A) × (o ≡ some a) × (f a ≡ b)
map-eq-some f Option.none h = absurd (cc (h))
map-eq-some f (some a) h = (a, refl, cc)

first-values :
    {V : Type 0} (entries : HashMap V) → entries ≢ [] → (v : V) × (first (values entries) ≡ some v)
first-values [] h = absurd (h refl)
first-values ((name, v) ∷ entries) h = (v, refl)

module _ (config : ConnectionConfig) (w : WellFormed config) where
  peer_of-Defined :
      (p : Text) → Defined config.peers p → (c : PeerConfig) × (get_peer_config config p ≡ ok c)
  unfolding get_peer_config
  peer_of-Defined p (c, e) = (c, rw e refl)

  orderer_of-Defined :
      (o : Text)
      → Defined config.orderers o
      → (c : OrdererConfig) × (get_orderer_config config o ≡ ok c)
  unfolding get_orderer_config
  orderer_of-Defined o (c, e) = (c, rw e refl)

  client_mspid : (id : Text) × (get_org_mspid config config.client.organization ≡ ok id)
  unfolding get_org_mspid
  client_mspid = let (org, e) = w.organization in (org.mspid, rw e refl)

  first_url : (u : Text) × (get_orderer_url config ≡ ok u)
  unfolding get_orderer_url
  first_url = let (o, e) = first-values config.orderers w.some_orderer in (o.url, rw e refl)

  peers_of :
      (channel_name : Text) (peers : List Text)
      → get_channel_peers config channel_name ≡ ok peers
      → All (λ p. (c : PeerConfig) × (get_peer_config config p ≡ ok c)) peers
        × ((names : List Text) × (get_endorsing_peers config channel_name ≡ ok names)
            × All (λ p. (c : PeerConfig) × (get_peer_config config p ≡ ok c)) names)
  unfolding get_channel_peers get_endorsing_peers
  peers_of channel_name peers h =
      let (channel, found, same) = map-eq-some _ _ (ok_or-eq-ok _ _ h) in
      let known = All-map (keys channel.peers) peer_of-Defined (
        All-lookup (λ (c : ChannelConfig). All (Defined config.peers) (keys c.peers))
          config.channels channel_name (All-map config.channels (λ c d. d.1) w.channels) found) in
      (
        rw (← same) known,
        (endorsing channel.peers, rw found refl, All-endorsing _ channel.peers known),
      )

  orderers_of :
      (channel_name : Text) (orderers : List Text)
      → get_channel_orderers config channel_name ≡ ok orderers
      → All (λ o. (c : OrdererConfig) × (get_orderer_config config o ≡ ok c)) orderers
  unfolding get_channel_orderers
  orderers_of channel_name orderers h =
      let (channel, found, same) = map-eq-some _ _ (ok_or-eq-ok _ _ h) in
      let known = All-map channel.orderers orderer_of-Defined (
        All-lookup (λ (c : ChannelConfig). All (Defined config.orderers) c.orderers) config.channels
          channel_name (All-map config.channels (λ c d. d.0) w.channels) found) in
      rw (← same) known

module _ {World : Type 0} (fs : FileSystem World)
    (from_yaml : Text → Result Text ConnectionConfig) where
  from_file-WellFormed :
      (path : Text) (world next : World) (config : ConnectionConfig)
      → from_file fs from_yaml path world ≡ (ok config, next)
      → WellFormed config
  unfolding from_file
  from_file-WellFormed path world next config h =
      let (_, w₁, exists, h₁) =
        and_then-eq-ok (lift (forbid (not (fs.exists path world)) _) world) _ h in
      let (content, w₂, reads, h₂) =
        and_then-eq-ok (map_failure _ (fs.read_to_string path w₁)) _ h₁ in
      let (parsed, w₃, parses, h₃) =
        and_then-eq-ok (lift (map_err _ (from_yaml content)) w₂) _ h₂ in
      let (checked, w₄, validates, h₄) = and_then-eq-ok (lift (validate parsed) w₃) _ h₃ in
      let same : parsed ≡ config = ok-injective (ap (λ p. p.0) h₄) in
      rw (← same) ((validate_iff parsed).0 (ap (λ p. p.0) validates))

  -- A profile that `from_file` returned knows the MSP id of the client's organization and an orderer's
  -- url, and for every channel it holds, each of the channel's peers and orderers has a configuration,
  -- and so has each peer that `get_endorsing_peers` returns for the channel, which it does.
  pub from_file-Resolved :
      (path : Text) (world next : World) (config : ConnectionConfig) (channel_name : Text)
      (peers orderers : List Text)
      → from_file fs from_yaml path world ≡ (ok config, next)
      → get_channel_peers config channel_name ≡ ok peers
      → get_channel_orderers config channel_name ≡ ok orderers
      → Resolved config channel_name peers orderers
  from_file-Resolved path world next config channel_name peers orderers loaded has_peers
        has_orderers =
      let w = from_file-WellFormed path world next config loaded in
      let (known, endorsers) = peers_of config w channel_name peers has_peers in
      record {
        mspid = client_mspid config w;
        url = first_url config w;
        peer_configs = known;
        orderer_configs = orderers_of config w channel_name orderers has_orderers;
        endorsers = endorsers;
      }
