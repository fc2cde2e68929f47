-- ===== src/Lib.antt =====
-- multi-log: a log store whose entries are hash-chained per tenant, sealed into checkpoints, and
-- anchored at independent witnesses, so that a verifier can find later edits.
--
-- Parts, and where they are modelled:
--   internal/crypto/canonical.go: Crypto. The length-prefixed encoder, and the digests of a tenant's
--     genesis, an entry, a link of the chain and a checkpoint. A string is the list of its bytes.
--     SHA-256 is a parameter, the record `Sha256`, whose only law is the digest's length; that it does
--     not collide is a hypothesis about the messages compared (`NoCollision`), never about all.
--   internal/chain/store.go: Chain. The in-memory store, a map from tenants to entries.
--   internal/chain/sealer.go: Chain/Sealer. `seal` numbers and links one entry; the mutex makes a call
--     one step.
--   internal/checkpoint/merkle.go, checkpoint.go: Checkpoint/Merkle and Checkpoint.
--   internal/witness/witness.go: Witness. The interfaces of checkpoint stores and notaries are records
--     of operations; the in-memory store, the proof ledger and the mock notary implement them.
--   internal/checkpoint/codec.go: Checkpoint/Codec, with encoding/json as a parameter.
--   internal/witness/opentimestamps/wire.go, notary.go: OpenTimestamps. `Reading` has the reader over a
--     byte slice, `Tree` the proof tree and the detached file, `Notary` what is read off a proof.
--   internal/witness/opentimestamps/calendar.go, and Stamp of notary.go: OpenTimestamps/Calendar.
--   internal/ingest/sealer.go: Ingest. `seal_batch` over the interface `LogStore`.
--   internal/ingest/handler.go: Ingest/Body, the parsing of a request's body, and Ingest/Handler, POST
--     /ingest. Ingest/Restarts has the steps of a gateway over time: batches, failed appends that have
--     stored nothing, a part or all of their entries, and restarts.
--   internal/logstore/clickhouse.go: Logstore. The statements are texts, the driver is `Conn`.
--     Logstore/Search has the comparisons of a search apart from their texts.
--   internal/queryapi/handler.go: QueryApi, GET /logs.
--   internal/anchor/anchor.go: Anchor. The databases, the WORM store and the clock are `Services`.
--   internal/control/control.go: Control. One operation of `Database` for each SQL statement.
--   internal/witness/s3worm/s3worm.go: S3Worm. The S3 client is an interface over the bucket's state.
--   internal/witness/rfc3161/rfc3161.go: Rfc3161, with the timestamp library as a parameter.
--   internal/anchorstore/anchorstore.go: Anchorstore. One operation of `Tables` for each statement.
--   internal/verifylive/verifylive.go: Live. What the stores answer during a run is `DataPlane`.
--   cmd/verifier/main.go, GET /verify, and cmd/demo/main.go, insiderReseal: Commands.
--   cmd/demo/main.go, build: Commands/Demo. cmd/controlplane/main.go: Commands/Controlplane.
--   cmd/anchorer/main.go, POST /anchor: Commands/Anchorer.
--   internal/config/config.go: Config. internal/witnessbuild/witnessbuild.go: Witnessbuild.
--   internal/verify/verify.go: Verify. The replay of the chains and the check of the checkpoints.
-- An entry flows from `seal` into the store; a window of the store's entries becomes a checkpoint by
-- `build`; the checkpoint is put into a checkpoint store and stamped by notaries; `verify` reads the
-- store, the checkpoint store and the proof ledger, and reports issues.
--
-- Numbers are natural numbers, with `% 2 ^ 64` where uint64 wraps; int64 is `ℤ`. A call that can
-- panic or loop returns a `Run`; a call with an error returns a `Result`. `merkle_loop` is given one
-- round for each hash, and a level at least halves in a round. `range_loop` is given as many rounds
-- as the window is large, and each round moves one number on; for a window that ends at the largest
-- uint64, where the loop of the source ends at a missing number only, it is given 2 ^ 64 rounds, after
-- which the source's loop has seen all numbers and goes on for ever. A varuint of 64 bits takes at most ten
-- bytes, a decimal at most twenty digits. `deserialize_timestamp` is given a round for each byte, and
-- each round reads one; `anchor_windows` a round for each entry, and each window takes one at least.
--
-- The modules under a component's name hold its proofs; Runs holds the runs on concrete values.
--
-- Not modelled: the services behind the interfaces (PostgreSQL, ClickHouse, S3, RFC 3161 and
-- OpenTimestamps servers), the transport of HTTP, JSON, the rest of the commands, and the texts
-- printed.
pub mod Prelude
pub mod Crypto
pub mod Chain
pub mod Checkpoint
pub mod Witness
pub mod Verify
pub mod OpenTimestamps
pub mod Ingest
pub mod Anchor
pub mod Control
pub mod Logstore
pub mod QueryApi
pub mod S3Worm
pub mod Rfc3161
pub mod Anchorstore
pub mod Live
pub mod Config
pub mod Witnessbuild
pub mod Commands
pub mod Runs
