-- ===== src/Lib.antt =====
-- dZTA, a decentralized zero trust architecture. A holder's credential, sealed in a wallet record, is
-- opened in an SGX enclave, where a Groth16 proof is made that its clearance reaches what a verifier
-- requires; an Envoy filter admits requests that carry such a proof and whose credential is not
-- revoked; a daemon copies revocations from the ledger to the filter.
--
-- Which file models what (paths from the repository's root):
-- Circuit: zkp-core-crypto/src/lib.rs. `generate_constraints` is synthesis under an assignment;
--   `check_satisfied` is the check that dzta-gramine-prover/src/main.rs makes with it.
-- Shared/WalletRecord, Shared/Scalar, Shared/Subject, Shared/Witness: shared/src/zkp_core.rs, one
--   function per function of `ZkpCore`, under its name. Errors: shared/src/errors.rs.
-- Prover: steps 4 to 9 of dzta-gramine-prover/src/main.rs, from a derived witness to the bytes of
--   the proof and of the public inputs.
-- Broker: dzta-attestation-broker. Quote is `verify_sgx_quote` and Routes the handlers of
--   src/routes/datakey.rs; Vault and Kms are the calls and the two providers of src/lib.rs. Code with
--   effects is a function from a world to a result and the next world (`Io` of
--   Effects), and every request to
--   Vault or to a KMS goes through the client of Interfaces/Http. Session is the binding of a session
--   to a quote, with one definition for dzta-gramine-prover/src/attestation.rs and its main.rs and
--   another for what the broker hashes.
-- Edge: dzta-edge-wasm/src/lib.rs. A request is a function from header names to values; the state is
--   the host's shared data store; `on_http_request_headers` returns the action, the response and the
--   store; `serve` is a sequence of requests in the order in which the host hands them over, each with
--   the configuration of its listener.
-- Daemon: dzta-revocation-daemon/src/main.rs. `process_chaincode_events_response` handles a block's
--   events, `sync_to_envoy_memory` pushes an id, `run_turns` is the loop of `run` over the outcomes of
--   the event streams.
-- Schema: fabric-client/src/schema_engine.rs.
-- Fabric: the rest of fabric-client. Config is src/config.rs, with the files in Config/Files and the
--   getters in Config/Getters. Client is src/fabric_client.rs: Identity builds identities and
--   connections, Chaincode invokes and queries, Commit is the wait for a commit, Retry the loop over
--   endorsements, Did the DIDs, and Ledger the methods that call the chaincode's functions, which
--   together fill the interface of Fabric/Ledger. Credentials is the store of
--   src/credential_manager.rs and Issue its operations that call the ledger too, with the JSON of a
--   credential in Payload. Credentials/Specification is what the store promises, and
--   Credentials/Refines that it keeps it. Models: shared/src/models.rs.
-- Issuer: dzta-issuer. The operations of src/lib.rs (`issue_credential` is create_credential), and in
--   Signer and Vault the two signers of src/signer.rs. Shared/VaultClient: shared/src/vault_client.rs.
-- Wallet: dzta-wallet/src/lib.rs, with the ciphertexts of the enclave's keys in Wallet/Enclave.
-- Transport: transport-engine/src/transport.rs, with the requests that it builds as values and the
--   client as a parameter.
-- Pipeline: the daemon's posts as requests of the filter's admin listener, and the prover's output as
--   the headers of a request at the filter.
-- Interfaces: the libraries that the sources call, each a record of operations and of the laws that
--   are documented of them. Interfaces/Witnesses holds concrete values of them for the examples.
--
-- Conventions. A string is the list of its UTF-8 bytes (`Text`). `trim` removes ASCII white space. A
-- u64 is a native natural number, with the bound 2 ^ 64 as a hypothesis where a theorem needs it; no
-- operation of the modelled code adds or multiplies machine integers but the two doublings of the
-- daemon's waits, which are capped at once, the back-off of the endorsements, whose wrap-around is
-- written out, and the two dates of the mock metadata, a time of the clock and an hour or a year, which
-- an i64 holds for every time that chrono represents. Numbers of the field are reduced modulo its prime by the
-- field's own laws. The error of a library call is the text that it displays; anyhow's context keeps
-- the outermost message. Header values, JSON documents and the random nonce are arguments. The retry
-- loop recurs on the retries that are left, which start at 5 as in the source, so it needs no fuel;
-- the endless loop of `run` is a function of the list of outcomes of its streams. The wait for a commit
-- polls every half second until its time is over, so its fuel is two rounds for every second and two
-- more; the loop over endorsements recurs on the attempts that are left. A HashMap is the list of its
-- entries in the order in which it iterates. A panic of `unwrap` is an outcome of its own (`Abort`).
-- The managers' locks are left out: what they guard is a value that is passed on.
--
-- Not modelled: logging, zeroization, TLS and gRPC set-up, process start, key generation, and the
-- inside of the proof system, of the ciphers and of the hash, of which only the laws in Interfaces are
-- used; the HTTP router and the construction of the broker's HTTP clients.
pub mod Broker
pub mod Circuit
pub mod Daemon
pub mod Edge
pub mod Effects
pub mod Errors
pub mod Fabric
pub mod Interfaces
pub mod Issuer
pub mod Pipeline
pub mod Prelude
pub mod Prover
pub mod Schema
pub mod Shared
pub mod Transport
pub mod Wallet
