-- ===== src/Lib.antt =====
-- narshare: nodes that hold Nix store paths tell each other what they hold and what they know about
-- it, and fetch from each other. This library models the index that this rests on: the facts, the
-- tables, the Merkle tree over the facts, and the sync protocol between nodes with its catch-up
-- engine; the archives that are exchanged: their seek tables, manifests and layouts, the plan of a
-- transfer and its emission; and the substituter that Nix asks: narinfos, signatures, and from whom
-- an archive is fetched.
--
-- The parts and their files:
--   Facts, Facts/*       src/store/mod.rs: attestations, canonical form, identity and `merge_into`;
--                        Facts/Table: the fact tables of src/store/rocks.rs and `merge_atts`.
--   Merkle, Merkle/*     src/store/rocks.rs: `Aggregates`, the tree of depth two over fact hashes.
--   Wire                 proto/mesh.proto: events, and what is taken from prost and blake3.
--   Store, Store/*       src/store/rocks.rs: clocks, journals, possession, watermarks, fact pages.
--   Index, Index/*       src/index.rs: Messages (the protocol's messages), Apply (`apply_suffix`,
--                        `apply_snapshot`, `merge_attests`), Respond (`respond` and its answers),
--                        Own (`sync_own_db` and the lookups), Export (`export_ops`,
--                        `retract_hold`), Maintain (`compact`, the dump cursors,
--                        `bump_self_generation`), Exchange (a responder and a puller together), and
--                        Reach (all of it as steps of one store).
--   Nar, Nar/*           src/nar.rs: the seek table, the slices of a range, and Build (`build`).
--   Manifest, Manifest/* src/manifest.rs: the manifest and `synth_layout`; Manifest/Archive states
--                        Nix's archive format, and Manifest/Build has `build_manifest`.
--   Fetch, Fetch/*       src/fetch.rs: the plan of a transfer, `manifest_plan`; Fetch/Buffer has the chunks
--                        that have landed (`take_prefix`, `take_span`), Fetch/Emit the `Emitter` and
--                        what `run_transfer` does with each chunk.
--   Narinfo, Narinfo/*   src/narinfo.rs: `format_narinfo`, `parse_narinfo`, `rewrite_for_client`.
--   Sig, Sig/*           src/sig.rs: `TrustedKeys`, `any_sig_valid` and `fingerprint`.
--   Proxy, Proxy/*       src/proxy.rs: `sources_of`, `get_narinfo` and `get_nar`.
--   Serve, Serve/*       src/serve.rs: `parse_range`.
--   Nixbase32, */*       src/nixbase32.rs: Nix's base 32.
--   Health               src/peers.rs: the circuit breaker of a peer.
--   Dedup, Dedup/*       src/dedup.rs: the retention plan for repeated segments.
--   Sync, Sync/*         src/sync.rs: Catchup (the planner), Engine (its steps with the asks in
--                        flight), Leases (`claim_origins`, `settle_leases`), Drain
--                        (`drain_applies`), and Loop (what `engine_loop` does with an enrolment
--                        and a reply).
--   Base, Base/*         lists, results, orders, sorted sets, sorted maps and exclusive or.
--   Tests, Tests/*       a small wire format, example stores, and the theorems at them.
--
-- State and operations. A store is the record `Db`, one field for each column family of
-- src/store/rocks.rs: the prefix of a row key that names the origin or the peer is the argument of
-- a function, and the rows under it are a list in key order. An operation takes the store and gives
-- a `Result` with the store that it leaves; a write batch is atomic and so are the calls, as the
-- locks make them. A Rust string or vector of bytes is a list of numbers. Sequence numbers and
-- generations are natural numbers; where the source saturates or wraps at 64 bits the model does,
-- but for the numbers that an export counts up (`seq += 1`) and the offsets of retained pieces, which
-- are not bounded. White space is that of ASCII, where the source asks for that of Unicode.
-- Where a hash map is walked, the order of the walk is an argument.
--
-- Bounds and fuel. `chunks` runs on fuel, the length of the list, which is enough since each chunk
-- takes at least one element; `drain_applies` runs on fuel, and more than there are buffered chunks
-- is enough; `hash_segments` runs on the length of the content, since each step takes a byte or
-- more; `covering` runs on the length of the span and `pump_stream` on what is left of its span, since
-- each round takes a byte or more; the other loops are structural recursion. The theorem on `respond`
-- asks that the journal's last sequence number fits into 64 bits, and the one on the retention planner
-- that each size does together with the budget. The theorems on the runs of the engine have as
-- hypotheses what `engine_loop` does not see to (Sync/Engine: `IsOrderly`).
--
-- What is taken from outside: `Wire` holds the encoders and the decoder of prost and the digest of
-- blake3, with their length and round-trip laws; `Text` the decimal and hex texts of metadata. Both
-- are arguments, and Tests instantiates them. `Local` holds what the differ reads: the rows of the
-- Nix database, a deriver's verdict on substitution, and whether a trusted key has signed. The
-- decoder of hex and the contents of files and segments are arguments, too, and `Tree` is what the
-- file system answers to the builder of a NAR. `Codec` has blake3, hex and the test
-- of UTF-8. `Crypto` has base64 and ed25519. The emitter takes the digest of a text and whether the client still listens; the proxy
-- takes the index's lookups, the time, and which sizes are refused while roaming.
--
-- Not modelled: the other loops of src/sync.rs, the scheduling of the transfers of src/fetch.rs and
-- the rest of src/serve.rs, which are mostly asynchronous I/O; the routes of src/proxy.rs; errors of
-- the database itself, task scheduling, HTTP, files and SQLite; the floating-point weights and the
-- governor; the counters; src/store/postgres.rs, whose SQL has the same contract.
pub mod Base
pub mod Facts
pub mod Merkle
pub mod Wire
pub mod Store
pub mod Index
pub mod Nar
pub mod Nixbase32
pub mod Health
pub mod Dedup
pub mod Sync
pub mod Manifest
pub mod Serve
pub mod Narinfo
pub mod Sig
pub mod Proxy
pub mod Fetch
pub mod Tests
