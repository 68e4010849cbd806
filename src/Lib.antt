-- ===== src/Lib.antt =====
-- Kessa: attestation and enforcement for delegated agent authority.
--
-- Human and software principals delegate authority to agents in chains of credentials. Each
-- credential carries a macaroon whose caveats bound what its holder may do. A proxy is the
-- chokepoint: it verifies the chain and the proof of possession of a request, classifies the
-- action by a policy, checks the authority, the revocation lists and the human approval, seals the
-- decision into a signed hash chain, makes it durable, and only then answers. An export of the log
-- carries the evidence, and a verifier which trusts nothing but published keys checks it again.
--
-- The files and the code:
--   Base, Base/*          bytes and strings (lists of numbers), results, dictionaries, integers,
--                         binary encodings, and the lemmas that the components share
--   Platform, Env         what the code calls and does not define: hashes, HMAC, signature schemes,
--                         base64url, time and float parsing; Env adds the JSON encoders
--   Errors                one constructor for each place where the code makes an error
--   Scalar, Scalar/*      internal/scalar/scalar.go: Parse, Value.Satisfies, Value.Compare
--   Types, Types/*        pkg/types/types.go: Action, Decision, Action.Context
--   Policy, Policy/*      internal/policy/policy.go: Parse, Policy.Validate, Policy.Evaluate
--   Macaroon, Macaroon/*  internal/macaroon/macaroon.go: Mint, Satisfies, Verify, narrows, and in
--                         Macaroon/Delegation Attenuate and Macaroon.Extends
--   Keys, Keys/*          internal/did/did.go and internal/signer/signer.go: JWKs, ResolveKey, Verify
--   Status, Status/*      internal/status/status.go: New, Set, Lookup, Sign, Verify, and in
--                         Status/Publication Marshal, Parse, PublishPath, Publish, Load
--   Keystore              internal/keystore/keystore.go: Keystore.Signer, Keystore.Principals
--   Issuer, Issuer/*      cmd/issuer/publish.go: Spec.validate, publish, revoke;
--                         Issuer/Daemon is cmd/issuer/daemon.go: keystoreKeys, loadEnrolledKeys
--   Credential, .../*     internal/credential/credential.go: New, BindHolder, ProvePossession,
--                         VerifyPossession
--   Chain, Chain/*        internal/chain/chain.go: SignIssuance, Chain.Verify, Chain.Principals
--   Audit, Audit/*        internal/audit/audit.go: Log.Seal, Log.Commit, LoadLog, VerifyEntries,
--                         SignApproval, VerifyApproval
--   Export, Export/*      internal/export/export.go and internal/export/verify.go: CredentialSet,
--                         Build, Parse; Export/Checks is verifyEntry, Export/Verify is Verify
--   Web, Web/*            internal/webhost/webhost.go: Validate; internal/did/did.go: DocumentPath,
--                         WriteDocument, FileResolver.Resolve, HTTPResolver.Resolve, and the file
--                         paths, hosts and escapes of the standard library that they use
--   Transport, .../*      internal/enforce/ingress.go, internal/enforce/http.go (Handler, Submit,
--                         FetchTip) and internal/enforce/mcp.go: Transport/Mcp has the messages and
--                         the checks of headers, Transport/Mcp/Server the tools and the endpoint
--   Shadow, Shadow/*      internal/shadow/shadow.go: Predict, FromExport, FromActions, Summarize
--   Vc, Vc/*              internal/vc/vc.go: Issue, Verify, Valid
--   Signerd, Signerd/*    internal/signerd: NewKeys, Server.handle, and in Signerd/Client
--                         Dial, Signer.Sign and what both ends write on the socket
--   Enroll, Enroll/*      internal/enroll: Enroll; Enroll/Devices is Mapping.AddCredential
--   Enforce, Enforce/*    internal/enforce/enforce.go and internal/enforce/wal.go: NewProxy,
--                         recovery; Enforce/Decide is decide, Enforce/Handle is Handle and
--                         decideAndAppend, Enforce/WriteAhead is the durable log and
--                         Enforce/WriteAhead/File the bytes of its file
--   Examples/*            a small world with a toy platform, and runs of the code in it
--
-- A function that can fail returns a Result with a structured error in place of the formatted
-- text. Mutable objects are records that are passed on: Handle takes a proxy to the next one, for an
-- instant of the clock and an outcome of the disk (all written, some bytes of the line written, or
-- written but not synced). The lock of the proxy makes decideAndAppend one step, and the checks in
-- front of it read nothing that a step changes, so that an interleaving of requests is a sequence of
-- steps.
--
-- Every loop of the code but two is structural recursion on the list it walks. The loop of the HTTP
-- client over redirects has fuel for the three requests that the check of redirects lets through,
-- and does not run out of it. The loop that reads the records of the durable log has fuel for one
-- more than the bytes of the file, which is enough, since a record takes a byte at least. The depth
-- of a chain is at most 8, a nonce at most 128 bytes, a signature at most 512, and a request body or
-- a message at most 2^20. Sequence numbers are unbounded in the model, and where their 64-bit
-- encoding matters this is a hypothesis.
--
-- Parameters are the platform, the JSON encoders and decoders (of messages, documents, lists,
-- chains, the records of the durable log, and both ends of the signing daemon's socket), the parsers
-- of URLs, addresses and media types, the keys of seeds, the resolver of documents, what answers at
-- a URL, the source of status lists, what the disk does to the durable log, to the file of a minted
-- chain and in an enrolment, and there the key generator and the operator. What is assumed of them
-- stands as a named hypothesis (a signer is genuine, base64url decodes what it encodes, a codec
-- reads back one message, JSON escapes control bytes and determines the previous hash).
--
-- Not modelled: telemetry and audit sinks, the reading of other files and the fetching of status
-- lists, rendered messages, configuration, and the command line tools but for the publication and
-- the keys of the issuer. None of them takes part in a decision or a verdict beyond the values that
-- they hand over.
pub mod Base
pub mod Platform
pub mod Scalar
pub mod Errors
pub mod Types
pub mod Policy
pub mod Macaroon
pub mod Web
pub mod Shadow
pub mod Vc
pub mod Issuer
pub mod Enroll
pub mod Signerd
pub mod Transport
pub mod Keys
pub mod Keystore
pub mod Status
pub mod Env
pub mod Credential
pub mod Audit
pub mod Chain
pub mod Export
pub mod Enforce
pub mod Examples
