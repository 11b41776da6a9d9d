-- ===== src/Lib.antt =====
-- A model of the MCP zero-trust proxy, a Go program that stands between clients of the Model Context
-- Protocol and their servers.
--
-- An HTTP request passes the stages of the security pipeline (body size, authentication, rate limit,
-- SSE role, parsing, masking of personal data, RBAC, cached tools/list), is sent to the upstream,
-- and its response is masked and filtered; every decision is audited.
--
-- - Base: the shared names, lists, integers, Go maps as association lists, and error results.
-- - Protocol: internal/proxy/interfaces.go and jsonrpc.go, the messages and `ParseRequest`. A body is
--   a list of bytes. `encoding/json` is the record `Codec`, a parameter.
-- - Http: internal/proxy/handler.go and pipeline.go, the Accept header and the client's address.
-- - Depth: internal/proxy/depth_limit.go, the walk that bounds the nesting of a JSON text.
-- - Rbac: internal/rbac/engine.go and roles.go. `Engine` is the Go struct; `process` is `Process`, and
--   `check_classification` is `checkClassification`, which return the engine with the new floors.
--   Races has the same read and write of a floor as two steps of interleaved calls.
-- - Pipeline: internal/proxy/pipeline.go. The middleware stands behind the interfaces of that file,
--   over a type `S` of their whole state. A stage takes a `Run`, the state and the trace of audit
--   entries and forwarded requests, and answers or passes a value on. Stages has the stages up to the
--   body, Single and Batch what follows, Serve the whole of `ServeHTTP`; Cors has `applyCORS` apart.
-- - Auth.Store: internal/auth/session.go. `SessionStore` is the map and the TTL; every reading of the
--   clock and every new UUID is an argument. Its History interleaves the operations.
-- - Auth.Tokens and Auth.Login: internal/auth/oauth.go, the token cache `lruCache` and the
--   `Authenticator`. The identity provider's answer and the tests on texts are the record `Outside`.
-- - Auth.Flow: internal/auth/oauth.go, the PKCE login of `HandleAuthStart` and `HandleCallback` over
--   `stateCache`. The exchange of a code with the provider is the record `Exchange`.
-- - Auth.Providers: internal/auth/providers.go, the endpoints of the identity providers.
-- - RateLimit: internal/ratelimit/limiter.go, the table of the clients' token buckets. The bucket of
--   golang.org/x/time/rate is the record `Buckets`, a parameter.
-- - Audit: internal/audit/engine.go and internal/audit/sinks/ocsf.go, the audit engine's fan-out and the
--   filters of its sinks. `regexp` is a parameter.
-- - Audit.Cef: internal/audit/sinks/cef.go, the message of an entry (`to_cef` is `toCEF`, `Printing` the
--   numerals and the texts of denials) and the settings that `NewCEFSink` makes. Audit.Settings has
--   those of the other sinks, and Audit.Built goes from the configuration to the sinks.
-- - Audit.Buffered: the channel, the batches and `Close` of the sinks in internal/audit/sinks that send
--   over HTTPS, as steps in any order. Audit.Ocsf: ocsf.go and json_http.go, the events and the
--   requests that carry them. Audit.File: file.go, the writers of a file sink and the rotation of its
--   file; the file system is the record `FileSystem`, with the laws of File.Lawful.
-- - Pii: internal/pii/masker.go. `new_masker` is `New`; Replace has the replacement of a pattern's
--   matches, over bytes, and Messages the masking of requests and responses over JSON values.
--   `regexp` and the encoding of values are the records `Regexp`, `Texts` and `Values`.
-- - Config: internal/config/types.go and config.go. `apply_defaults` is `applyDefaults`, with
--   `merge_roles`; `validate` gives the list of errors that `Validate` joins. `regexp.Compile` and
--   the names of the cipher suites are the record `Checks`.
-- - Routing: internal/proxy/router.go and server_router.go, the choice of the upstream by the path
--   (`resolve_for_request` is `ResolveForRequest`) and the cache of the servers' tools.
-- - License: internal/license/license.go, `Parse` and `Validate` of a licence key. Base64, JSON, ASN.1
--   and the signature check are the record `Crypto`.
-- - Catalog: internal/catalog/catalog.go, the tools of the upstream servers in a SQLite table, which is
--   the record `Sqlite` with the laws of Catalog.Lawful. A statement is the text that the code builds.
-- - Command: cmd/mcpproxy/main.go and NewAuthenticator of internal/auth/oauth.go, the start of the proxy
--   from its configuration. What it asks of the network and the files is the record `Machine`.
--
-- Every loop is structural recursion on a list or on a count, but for the walk of Depth, which is
-- recursion on fuel: three steps for each byte of the text, and three more, are enough.
--
-- Not modelled: HTTP response headers but those of CORS (the rate-limit headers, say), times, latencies,
-- and the texts of errors, which are constructors here. A regular expression, the identity provider
-- and the network are parameters or left out. Reading the configuration file and parsing its YAML,
-- the connections of the CEF sink, the JSON line of a file entry, the reverse proxy and the SSE stream,
-- and the goroutines and tickers that start the periodic work are not modelled.
pub mod Base
pub mod Protocol
pub mod Http
pub mod Depth
pub mod Pipeline
pub mod Rbac
pub mod Auth
pub mod RateLimit
pub mod Audit
pub mod Pii
pub mod Config
pub mod Routing
pub mod License
pub mod Catalog
pub mod Command
