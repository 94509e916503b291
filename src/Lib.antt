-- ===== src/Lib.antt =====
-- Propylea, an L7 reverse proxy: a model of the parts that decide, and what holds of them.
--
-- A request comes in over TLS, whose ClientHello is peeked at (src/tls_fingerprint.rs). Its framing
-- is checked and its identity headers are rewritten (src/framing_guard/mod.rs); the edge defense
-- may drop it (src/defense.rs); the router picks the upstream by the Host header (src/router.rs)
-- from the configured routes (src/config/); the headers are completed on the way up and hardened on
-- the way down (src/headers.rs). Between them stands the upstream's answer or a 502 (src/proxy/).
-- Each request is recorded (src/telemetry.rs) with scrubbed texts (src/sanitize.rs). The TLS
-- acceptor picks the certificate by the server name, from the same routes (src/tls.rs). Plain HTTP
-- answers ACME challenges (src/acme.rs) and redirects the rest (src/http_redirect.rs). Addresses
-- that misbehave are banned: the bans live in an engine in memory and in a database
-- (src/quarantine/), which the daemon's control socket and the command line change, list and
-- export. A test gate bans into the same kind of database (src/crucible.rs). A governor counts
-- connections (src/maintenance.rs).
--
-- Files:
--   Prelude, Prelude/*: Boolean tests, lists measured by native numbers, texts as lists of code
--     points, decimal numbers, results.
--   Http, Http/Assoc: the header map of the `http` crate as a record of operations and laws, and an
--     association list that meets them.
--   Framing: `FramingGuard` of src/framing_guard/mod.rs; Framing/Accepted: what passes it.
--   Headers: src/headers.rs, and `sanitize_ingress_headers` of src/framing_guard/mod.rs;
--     Headers/Keep, /Others, /Upstream, /Downstream: single insertions, the headers that a step
--     does not set, the way up, the way down.
--   Sanitize: src/sanitize.rs; the loop on characters is four functions, one for each state of the
--     scrubber (`scrub_from`, `scrub_escape`, `scrub_csi`, `scrub_osc`). Sanitize/Scrub, /Banner.
--   Telemetry: src/telemetry.rs; the locked deque is the state. Telemetry/Ring, /Query, /Redact.
--   TlsFingerprint: src/tls_fingerprint.rs; a read out of range is the value `panicked`, and the
--     loop over extensions has the buffer's length as fuel, since each round moves on by at least
--     four bytes. TlsFingerprint/Safety, /Grease, /Coherence.
--   Config: src/config/mod.rs and src/config/route.rs. Config/Addr, /Upstreams, /Validate.
--   Router: src/router.rs; the hash map is a list of bindings, newest first. Router/Resolve, /Hosts.
--   Quarantine/Net: the crates `ipnet` and `phylax` as interfaces without laws.
--   Quarantine/Store: src/quarantine/store.rs; one function for each SQL statement, on a list of rows
--     and a log. Quarantine/Store/Rows, /Bans, /Clearing, /Listing, /History,
--     /Succession.
--   Quarantine/Targets: the parsers of src/quarantine/cli/parsers.rs; Quarantine/Targets/Duration.
--   Quarantine/Ipc: the requests of src/quarantine/ipc.rs; Quarantine/Ipc/Requests.
--   Quarantine/Offline: `exec_cli_ban` and the collecting of `exec_cli_ingest`;
--     Quarantine/Offline/Agreement, /Ingest. Quarantine/Ingest: the chunks of `exec_cli_ingest`, by
--     recursion on the targets; Quarantine/Ingest/Chunked.
--   Quarantine/Export: src/quarantine/export/mod.rs, with Quarantine/Export/Html for html.rs and
--     Quarantine/Export/Template for the constant texts of its page; a slice inside a character
--     panics, `none`. Quarantine/Export/Escape, /Counts, /Markup, /Panics. Quarantine/Csv: the CSV
--     format against a reader whose records end in a line feed, Quarantine/Csv/Reader.
--   Quarantine/Commands: `handle_quarantine_command` of src/quarantine/cli/mod.rs; the database that
--     opens or not, the answering daemon and the lines of a log are arguments.
--     Quarantine/Commands/Unban, /Listed.
--   Quarantine/Manager: src/quarantine/mod.rs; Quarantine/Manager/Rehydration.
--   Defense: `evaluate_request_full` of src/defense.rs, with the `phylax` shield as an interface
--     without laws (Defense/Shield); one function for each check. Defense/Verdicts, /Refusals,
--     /Answers, /Due.
--     Defense/Boot: `EdgeDefense::new`, and `build_edge_defense` of src/proxy/mod.rs;
--     Defense/Boot/Restored.
--   Proxy: `handle_proxy_request_with_tls` of src/proxy/mod.rs up to the hand-over to an upstream;
--     Proxy/Forwarded. Proxy/Serve: from there to the response, with src/proxy/forward.rs and
--     src/proxy/websocket.rs; what comes of contacting an upstream is a function of its address and
--     of the headers. Proxy/Sent, /Recorded, /Responses.
--   Proxy/System: the running daemon as a step relation on the shared state, the open connections,
--     the requests that wait for an upstream and the database: src/proxy/mod.rs with
--     src/quarantine/mod.rs, src/quarantine/ipc.rs and src/maintenance.rs. A decision about a request
--     is one step and the answer to it a later one; the steps within one decision are not taken apart.
--     Proxy/System/Kept, /Due, /Preserved, /Sound.
--   Tls: src/tls.rs, with `rustls` as an interface whose laws say what its table of names answers
--     after an insertion; Tls/Certificates.
--   Startup: `execute_cli`, `run_check` and `run_serve` of src/cli.rs up to the listeners;
--     Startup/Checked.
--   Redirect: the answer of src/http_redirect.rs; Redirect/Location.
--   Crucible: `handle_crucible_request` of src/crucible.rs; Crucible/Bans.
--   Acme: src/acme.rs; Acme/Served. Maintenance: src/maintenance.rs; Maintenance/Connections.
--   Each */Tests holds runs on test data and one instance for each result.
--
-- Bounds: numbers are natural numbers; what the source computes at 64 bits and may overflow is
-- taken modulo 2^64 (durations, expiry times, the governor's counters), as a release build does.
--
-- Not modelled: sockets and listeners, the handshake and record layer of TLS, the upgraded tunnel,
-- files, clocks, logging, the parsing of arguments and the JSON and TOML texts, which are I/O or
-- crates; the bodies of requests, which are streamed as they are; and the feature `hedged-racing` of
-- src/proxy/forward.rs and src/router.rs, which the default build leaves out.
pub mod Prelude
pub mod Sanitize
pub mod Telemetry
pub mod TlsFingerprint
pub mod Config
pub mod Router
pub mod Startup
pub mod Tls
pub mod Http
pub mod Framing
pub mod Headers
pub mod Quarantine
pub mod Acme
pub mod Maintenance
pub mod Defense
pub mod Proxy
pub mod Crucible
pub mod Redirect
