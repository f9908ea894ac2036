-- ===== src/Lib.antt =====
-- The core of headless-db-mcp, a server that gives MCP clients access to databases: clients speak
-- JSON-RPC (over standard input or HTTP with server-sent events) to a session, which calls tools,
-- which act on database connections that the registry fences by generation; each driver builds what
-- it sends to its database from what a client wrote.
--
-- Which file models which part (paths from the repository's root):
--   * Registry (crates/registry): Attempts has `ConnectionAttemptRegistry`, a map of generations as
--     the state, and its operations as functions to the next state; `Op` and `run` are any sequence
--     of calls by any threads. Sessions has `SessionRegistry`; `insert_if_current` takes the state
--     of the attempts at each of its two looks.
--   * Core (crates/core): `DriverError`, `CellValue`, `ConnectionConfig`, and the results of queries.
--   * Wire (crates/mcp-wire): JsonRpc has the nesting check and `decode_message`; Sse has
--     `encode_sse_event` and `SseDecoder::feed`.
--   * McpServer (crates/mcp-server): Tool, Registry and Session, with the audit trail as the list of
--     recorded events. Tools act on a `World`, which is a parameter.
--   * StdioTransport (crates/transport-stdio): the loop that reads lines, hands the messages in them
--     to the session and writes the replies. Its input is the list of what `next_line` answers.
--   * HttpTransport (crates/transport-http): the handler of `POST /mcp` and the two layers around it,
--     the rate limit and the bearer token, in the order in which the router puts them.
--   * Connections (crates/connections/src/manager.rs): Manager has `ConnectionManager` and each part
--     of its operations between two awaits; Tasks has the manager with the `connect` calls under
--     way, as a step relation; Connect is `connect` with no other task in between. Driver handles
--     are of any type.
--   * JsonFile: the file code that the metadata store and the secret store both have. `Files` is
--     what it takes from the file system and serde_json, and `IsLawful` what those promise.
--   * Profiles (crates/connection-profiles): Profile has the types; Manager has `save`, `resolve`,
--     `list` and `delete` over the metadata file and the trait `SecretStore`, an interface.
--   * Secrets (crates/secrets/src/file_store.rs): `get`, `set` and `delete` of the encrypted file; the
--     record `Outside` is what they take from libraries, and `IsCipher` what those promise.
--   * Tools (crates/connections/src/tools): Support has what the tools share; Connection has the
--     tools on open connections, Connect has `connect`, SavedProfiles the tools on saved profiles, and
--     Export the lines of a dump. A call gives the answer, and the drivers that it told to cancel.
--   * ClickHouse (crates/driver-clickhouse): Ident, Params, Statement and Tsv have what is written
--     into a statement or read from a buffered body; Request has the driver's state, the settings of
--     a request and its errors, Tls the client, Body the rows of a body that arrives in chunks,
--     Query the queries, and Stream the batches of rows.
--   * Postgres (crates/driver-postgres): Ident has quoting, Errors and Cells the errors, values and
--     parameters, Query the loop over a portal, Stream the batches, Tls and Config what is trusted
--     and how a session is opened, and Driver the session that a driver holds.
--   * Redis (crates/driver-redis): Command has command lines, Reply the cells of a reply, Query the
--     cap on its rows, Schema the pseudo-tables, Keys the rows of a key, and Stream the loop of scans
--     over the keys of a pseudo-table.
--   * Quoting, Strings, Sorting, HashMap and Prelude hold what the components share; Strings and
--     HashMap model what the source uses of Rust's standard library.
--
-- Characters and bytes are numbers, a text is a list of characters. A map is an association list,
-- where an insertion replaces the entry of its key. A generation wraps around at 2 ^ 64. Mutexes
-- make each of their critical sections one step.
--
-- Fuel: `skip_within` is given one more than the length of the statement, and each round but the
-- last shortens it; `feed_within` is given the length of the buffer, and each round takes a line
-- off it. `unwrap_within` is given one more than the length of the type's name, and each round takes
-- a wrapper off. The number of scans of a Redis stream is the server's to decide, so `scan_loop`
-- has any fuel, and says when it ran out. The loops over a portal of PostgreSQL are given one more
-- than the cap, or than the emergency limit: each round reads a row or is the last.
--
-- Parameters: `serde_json` (the parser, the derived `Deserialize`, the printers), the writer of
-- the standard input transport, the rate limiter of `governor`, `subtle`, the client libraries of
-- the databases (`tokio_postgres`, `reqwest` and `redis`), `rustls` and `webpki`, the file system,
-- AES-GCM, base64, the answers of drivers to the manager and the tools, the `uuid` crate, `f64`
-- parsing, the time and random values, and the Unicode tables behind `char::is_alphanumeric` and
-- `str::to_uppercase`.
--
-- Not modelled: the network, the queries of the databases' catalogs, the connection that the Redis
-- driver holds, the reading of the master key, the tool that echoes, the listener of the HTTP
-- transport, the wiring of the server, and logging. Of the drivers' traits, the methods stand as
-- records where they are used.
pub mod ClickHouse
pub mod Connections
pub mod Core
pub mod HashMap
pub mod HttpTransport
pub mod JsonFile
pub mod McpServer
pub mod Postgres
pub mod Prelude
pub mod Profiles
pub mod Quoting
pub mod Redis
pub mod Registry
pub mod Secrets
pub mod Sorting
pub mod StdioTransport
pub mod Strings
pub mod Tools
pub mod Wire
