-- ===== src/Shared/VaultClient.antt =====
-- build_vault_client of shared/src/vault_client.rs.
use dzta.Prelude.{
  ◌||◌, Text, Result, ok, err, map_err, Option, none, some, Bool, true, false, ℕ, utf8, text_eq,
}
use dzta.Errors.{BrokerError, request}
use dzta.Effects.{Io}
use dzta.Interfaces.Host.{Environment, FileSystem}

-- The builder of reqwest's client, with reqwest::Certificate.
pub record ClientBuilder : Type 1 where
  pub Builder : Type 0
  pub Client : Type 0
  pub Certificate : Type 0
  -- Client::builder().timeout(…), in seconds
  pub builder : ℕ → Builder
  pub danger_accept_invalid_certs : Bool → Builder → Builder
  pub add_root_certificate : Certificate → Builder → Builder
  pub build : Builder → Result Text Client
  pub from_pem : Text → Result Text Certificate

module _ {World : Type 0} (reqwest : ClientBuilder) (environment : Environment World)
    (files : FileSystem World) where
  open reqwest use {Builder, Client}

  -- Whether VAULT_INSECURE_SKIP_VERIFY is set.
  unfoldable skips_verification : Option Text → Bool
  skips_verification none = false
  skips_verification (some v) = text_eq v (utf8 "1") || text_eq v (utf8 "true")

  -- The certificate is left out when its file cannot be read or is none.
  abbrev with_certificate : Builder → Result Text Text → Builder
  with_certificate builder (err e) = builder
  with_certificate builder (ok bytes) = elim (reqwest.from_pem bytes) [
    | ok certificate ↦ reqwest.add_root_certificate certificate builder
    | err e ↦ builder
  ]

  unfoldable configured : World → Builder × World
  configured world =
      let builder = reqwest.builder 10 in
      elim (skips_verification (environment.var (utf8 "VAULT_INSECURE_SKIP_VERIFY") world)) [
        | true ↦ (reqwest.danger_accept_invalid_certs true builder, world)
        | false ↦ elim (environment.var (utf8 "VAULT_CACERT") world) [
          | none ↦ (builder, world)
          | some ca_path ↦
              let (bytes, after) = files.read ca_path world in
              (with_certificate builder bytes, after)
        ]
      ]

  unfoldable build_vault_client : Io World BrokerError Client
  unfolding configured
  build_vault_client world =
      let (builder, after) = configured world in (map_err request (reqwest.build builder), after)
