-- ===== src/Lib.antt =====
-- Verification library of the proxy engine.
--
-- The engine (crates/engine) is a loopback HTTP proxy that classifies the destinations of requests,
-- records their metadata and, on request, their bodies, redacts what it stores, pauses and replaces
-- responses of Development destinations, replays completed requests, and inspects HTTPS of
-- Development destinations for a client that has proved that it trusts the local CA.
--
-- Files and code:
-- - Base, Text: tests, lists, results, maps, and the methods of the standard library on strings and IP
--   addresses that the code calls.
-- - Policy, Status: crates/engine/src/lib.rs (authorize, redact_header, EngineStatus).
-- - Hosts: crates/engine/src/proxy.rs (HostPattern, DestinationClassifier).
-- - Rules: crates/engine/src/proxy.rs (ResponseRule, compile_replacement_body).
-- - Auth: crates/engine/src/proxy.rs (ProxyClientAuth).
-- - Requests: crates/engine/src/proxy.rs (safe_target, safe_headers, strip_hop_headers, replay_template).
-- - Engine: crates/engine/src/proxy.rs (State, ProxyEngine, Exchange, begin_exchange and the parts of
--   handle and forward_with_sender that run under the lock). Traffic has the captures, Exchange the
--   operations of an exchange, Config and Control those of the application, Views the recorded bodies
--   as the application sees them, Inspect their search and layout. Invariant, Begin, Keeps, Steps and
--   Replay are proofs.
-- - Bodies: crates/engine/src/proxy/bodies.rs (Entry, BodyStore, the recording task, Tap). Store has the
--   operations of a store, Worker the task, Steps the interleavings of all of them, without layouts;
--   Budget, Leak, Recording and Completion are proofs.
-- - Search: crates/engine/src/proxy/bodies/inspect.rs (scan, BodyStore::search). Ends and Prefix are
--   about its prefix table, Scan about its loops, Resume about a step, Request about a call; Repeat has
--   the loop of src/ResponseBody.tsx that goes on from a step, and what it finds.
-- - JsonLayout: crates/engine/src/proxy/bodies/inspect.rs (format_json and the nesting that CheckedReader
--   allows). View has BodyStore::json_view with its task, json_page and BudgetWriter; Spaces, Strings,
--   Again and Budget are proofs, and Strings has the white space outside strings by the grammar of JSON.
-- - Redact: crates/engine/src/proxy/bodies.rs (redact_json, redact_path, compile_redaction_paths).
-- - Tls: crates/engine/src/tls_intercept.rs (TlsClientIdentity, TlsInspectionGate) and the records
--   CaStatus and IssuedLeaf of crates/engine/src/ca.rs.
-- - Ca: crates/engine/src/ca.rs (generate_ca, issue_leaf_from_ca, normalize_leaf_host). Store has
--   CaManager over the credential store; Leaf, Manager and Consent are proofs, and Manager has the
--   abstract cell that CaManager implements.
-- - TrustCheck: crates/engine/src/tls_trust_check.rs (TlsTrustCheckManager, preflight, run_check).
-- - Interception: crates/engine/src/proxy.rs (ProxyTlsInterception); Route is its proof.
-- - Dispatch: crates/engine/src/proxy.rs (handle, forward up to its connection, connect_upstream).
-- - Tunnel: crates/engine/src/proxy/tunnel.rs (establish, Tunnel::run, forward_intercepted_https,
--   CountedIo).
-- - Desktop: src-tauri/src/main.rs (the commands and the exit of the application).
--
-- How the parts interact: the engine keeps a classifier, response rules and redaction paths that
-- `start` compiles, forgets the bodies of a capture that it evicts, and asks the policy before it
-- replays or changes anything. The preflight of the trust check reads the status of the engine and
-- the gate of the last check. A tunnel asks the interception for a route, which asks the authority
-- for its status and a leaf, and the trust check for its readiness; the desktop owns the engine, the
-- authority and the trust check, and stops the first and the last whenever the authority changes.
--
-- State is passed on explicitly. What runs under one hold of a lock is one operation; an
-- interleaving of tasks is a list of events. An `Arc` is a handle into a heap, a sender is the number
-- of its channel, a temporary file is its bytes. Time, the network, files and other crates come in as
-- arguments: the outcome of a bind, of a write or of a handshake, the current time, and the records
-- Http, HeaderOps and Crypto for the crates http, base64 and sha2. The lowercase of a character that is
-- not ASCII is an argument of the key redaction. Words that are strings in the source (phases, states
-- of bodies) are data types.
--
-- Bounds: ids, revisions and counters of the engine are not bounded, since 2^64 steps are out of
-- reach; the sums of the disk budget are checked against 2^64 as in the source, and saturating sums
-- saturate. The fuel of `evict_excess` is the number of captures, which each round makes smaller by
-- one; `decimal` has one digit at most for each number below its own value.
--
-- The loops of the search have as fuel what they make smaller: the bytes that match so far, and the
-- bytes that are left to scan. An index out of range, where the code panics, and fuel that runs out
-- are the same `none`, which the theorems on the search exclude. Times of certificates are
-- nanoseconds after 1970, and the end of the range of the `time` crate is not reached.
--
-- Not modelled: the forwarding of frames and the connections themselves (hyper, rustls, tokio), the
-- buffer of request bodies, the validation of JSON by serde_json and of UTF-8, the JSON and the
-- certificates of the authority beyond what the engine passes to its crates, the commands of
-- src-tauri that only pass a call on and its event loop, the user interface beyond the search loop.
-- Calls of the trust check that overlap are not modelled: its events come one at a time. The files of
-- an export are by their paths, without links. The run of a tunnel has the end of its own exchange;
-- those of the requests inside it end by inner_answer, or with their bodies, which are not followed.
pub mod Base
pub mod Text
pub mod Policy
pub mod Hosts
pub mod Tls
pub mod Ca
pub mod Status
pub mod TrustCheck
pub mod Redact
pub mod Bodies
pub mod Search
pub mod JsonLayout
pub mod Rules
pub mod Auth
pub mod Requests
pub mod Interception
pub mod Engine
pub mod Dispatch
pub mod Tunnel
pub mod Desktop
