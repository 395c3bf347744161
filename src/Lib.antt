-- ===== src/Lib.antt =====
-- DataPorch gives agents bounded, read-only access to relational databases. This library models the
-- core of the program, the Go packages under internal/; the list at the end says what is proved.
--
-- The parts, and how they interact. A `Definition` (internal/connection/definition.go) names a data
-- source with its kind, its settings and references to its secrets (internal/secret/reference.go).
-- The importer (internal/connection/importer.go) stores the secrets of a connection string and saves
-- a definition; the `Manager` (internal/connection/manager.go) keeps the definitions and resolves
-- their secrets.
-- The execution `Service` (internal/execution/discovery_service.go, query.go) reads the manager as a
-- `SourceRegistry`, asks an `Authorizer` (internal/access/allow_all.go) about each request, and hands
-- the request to the adapter of the source's kind; lists come in pages whose cursors
-- (internal/execution/cursor.go) carry a fingerprint of the request. The PostgreSQL adapter reads
-- the rows of a query within a budget of bytes and rows
-- (internal/connection/postgres/query_result.go), on a connection of a pool (query.go) that the
-- opener keeps for each database (opener.go). The SQLite adapter leases connections
-- (internal/connection/sqlite/runtime.go) that an authorizer restrains (policy.go). What each
-- database reports is projected by the query_error.go of its package, and
-- errors become failures for the client by internal/execution/errors.go and query_errors.go. The
-- MCP endpoint lets a request through with a token (internal/mcptoken/service.go, checked by
-- internal/transports/mcpauth/handler.go) or, locally, with a credential
-- (internal/mcpcontrol/token.go, internal/transports/localmcp/auth.go). The token's state and the
-- definitions are kept in files (internal/mcptoken/local/store.go,
-- internal/connection/filestore/store.go) that internal/atomicfile/atomicfile.go replaces.
--
-- Files and sources:
--   Prelude, Assoc, Sort, Text   helpers: numbers and lists, Go maps, package sort, strings with
--                                packages strings, utf8, base64, hex and strconv as far as used
--   Fault, Fault/Database        errors, results and contexts; DatabaseError and the categories
--   Secret/Reference             internal/secret/reference.go (Parse, NewLocal, Parts)
--   Connection/Definition        internal/connection/definition.go (Definition.Validate)
--   Connection/Manager           internal/connection/manager.go (NewManager, Register, Lookup as
--                                find, List, Prepare)
--   Adapters, Connection/Connector  the index of adapters by kind; internal/connection/connector.go
--                                (NewConnector, Resolve as adapter_for)
--   Connection/Importer          internal/connection/importer.go (Import as import_connection)
--   Access                       internal/access/allow_all.go (Authorize)
--   Execution/Types, Service     internal/execution/types.go and the shared checks and New of
--                                internal/execution/discovery_service.go
--   Execution/Sources            ListDataSources
--   Execution/Relational         ListRelationalSchemas, ListRelationalTables, ListRelationalColumns
--   Execution/Query              internal/execution/query.go (QueryRelationalDatabase)
--   Execution/Cursor             internal/execution/cursor.go
--   Execution/Errors, QueryErrors  Classify and ClassifyRelationalQuery
--   Postgres/Budget, Rows        internal/connection/postgres/query_result.go
--   Postgres/Opener              internal/connection/postgres/opener.go (openRaw as acquire,
--                                runAttempt, finishAttempt, Invalidate, Close)
--   Postgres/Query, Errors       internal/connection/postgres/query.go and query_error.go
--   Mysql/Errors, Diagnostics    internal/connection/mysql/query_error.go; the messages of MySQL
--                                and SQLite
--   Sqlite/Codes, Errors         internal/connection/sqlite/query_error.go
--   Sqlite/Runtime, Policy       internal/connection/sqlite/runtime.go and policy.go
--   AtomicFile                   internal/atomicfile/atomicfile.go (Replace)
--   Connection/FileStore         internal/connection/filestore/store.go (Open as open_store, Lookup
--                                as find, List, Upsert)
--   Token/Local                  internal/mcptoken/local/store.go (Load, Save, Delete); Stored:
--                                as the store that Token is given
--   Transports/Auth, Origin      internal/transports/mcpauth/handler.go,
--                                internal/transports/localmcp/auth.go, internal/mcpcontrol/token.go,
--                                internal/transports/mcp/origin.go
--   Token                        internal/mcptoken/service.go (New, Create, Status, Rotate, Revoke,
--                                Verify)
--   Tests                        runs at concrete inputs
--
-- How the model reads the source. A string or byte slice is its list of bytes. An error is the list
-- of what errors.Is and errors.As find in it, so the wording of messages is left out. A context
-- answers its n-th call of Err by a function of n; what a callee does with a context is the
-- callee's own function. A map is a list of entries in the order of a range loop, and a nil map is
-- the empty one. The copies that the source makes of slices and maps are the values themselves, and
-- the wiping of secret buffers has no counterpart. A lock makes each operation of the manager, and
-- of the token service, one step; what callers and goroutines do to an opener or to a SQLite runtime
-- is a sequence of such steps, in any order. A call of a driver returns what a record of answers
-- says (Surroundings, World, Conn), and what is done to a connection is a list of events, with the
-- access mode, the options and the texts that the source passes. Package encoding/json,
-- crypto/sha256, strings.ToLower, the database driver, the authorizer, the secret resolver and the
-- adapters are parameters; what the proofs rely on of them is named by IsCodec, IsMarshal, IsStore,
-- IsJson, IsCalendar and IsToLower. An int of the source that is never negative is a natural number.
--
-- Bounds and fuel. The client that follows cursors (Execution/Sources/Client) runs on fuel: one more
-- than there are matching sources is proved to be enough. The loops of the binary search and of the
-- decimal digits run on fuel that is the length and the number plus one, proved to be enough too, and
-- so does the loop that writes a file, whose fuel is one more than there are bytes.
--
-- Not modelled: the query executors of MySQL and SQLite, whose opener and result reading repeat those
-- of PostgreSQL, the making of pools, discovery statements, the store of secrets
-- (internal/secret/local), configuration, the plumbing of the transports and the command line.
pub mod Access
pub mod Adapters
pub mod Assoc
pub mod AtomicFile
pub mod Connection
pub mod Diagnostics
pub mod Execution
pub mod Fault
pub mod Mysql
pub mod Postgres
pub mod Prelude
pub mod Secret
pub mod Sort
pub mod Sqlite
pub mod Tests
pub mod Text
pub mod Token
pub mod Transports
