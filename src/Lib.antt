-- ===== src/Lib.antt =====
-- Shorty shortens URLs: it stores a URL under a random path, redirects from this path to the URL, and
-- lists and deletes the URLs of a user, over HTTP and gRPC. This library models its services, storages
-- and transports.
--
-- Parts, and where they are:
--   Model, Errors   internal/model, the record of internal/storage/memory/db, internal/user, and Go's
--                   error values. The record `Storage` is the interface Storage of internal/app/app.go.
--   Memory          internal/storage/memory: Get, Store, StoreBatch, ListUserURLs, DeleteUserURLs,
--                   Stats, as functions on the record `Memory`. A Go map is a list of entries.
--   File            internal/storage/file/file.go: the storage over Memory that is saved to a file;
--                   the file format, reading and dumping; File/Races has the interleavings of the
--                   saving loop with the calls.
--   Database        internal/storage/database/database.go, over the results of its queries, which are the
--                   fields of `Pool`; Database/Table is what its statements do with the table, and
--                   Database/Connecting is internal/storage/database/config.go and migrate.go.
--   Links           what the services rely on in a storage, as laws of the interface `Storage`
--                   (Links.LinkStoreFor, and Links.LinkStore where every URL fits), which Links/Stores
--                   fills for the three storages.
--   Buffer          internal/buffer/buffer.go: the queue that collects deletions. Buffer is its state
--                   and Push and doFlush as functions; Buffer/Threads is the steps of its goroutines.
--   Generators      internal/generators: the random path.
--   Shortener       internal/services/shortener: Shorten with its retries, ShortenBatch, GetAll,
--                   DeleteBatch and the flush function of the queue, over any `Storage`. The state of a
--                   call is the record `World`.
--   Resolver        internal/services/resolver: the path check and Resolve.
--   Status          internal/services/status.
--   Filter          internal/filter, and its users in internal/http/middleware/filter and
--                   internal/grpc/interceptors/filter.
--   Session         internal/session.
--   Auth            internal/auth and user.New of internal/user, the middleware and the interceptor over
--                   them, and those of the request ids (internal/http/middleware/requestid and
--                   internal/grpc/interceptors/requestid).
--   Users           NewFromUserID of internal/user.
--   Config          internal/config: New, the flags and the file (Config/Reading), their merge, and the
--                   environment. Certificates is internal/config/tls.go.
--   Http            Http/Writer is the response writers of internal/http/middleware/logging and
--                   internal/http/middleware/compress; Http/Handlers, with Http/Replies, is
--                   internal/http/server/handlers.go. Http/Server is internal/http/server/server.go: the
--                   routes, and the chain of middleware around them.
--   Grpc            internal/grpc/server/handlers.go; Grpc/Agreement compares its answers with HTTP's.
--                   Grpc/Server is the chain of interceptors of internal/grpc/server/server.go, with
--                   internal/grpc/interceptors/logging.
--   App             internal/app/app.go: createStorage, and Run with its goroutines, which are Run of the
--                   two servers and of internal/profiler, as a step relation.
--   Command         cmd/shortener/main.go.
--   Analyzers       internal/analyzers.
--   EndToEnd        the services over the in-memory storage; EndToEnd/Ending is the end of the queue and
--                   the file storage; EndToEnd/Lifecycle is a link in the whole
--                   HTTP server, and EndToEnd/Transports one between the two servers.
--
-- The handlers call the services with the user and the request id of the context; the services call
-- the storage; the shortener also pushes deletions to the queue, whose loop hands them to the storage.
--
-- Correspondence. A function of the model has the name of the Go function in snake case, and where a
-- Go function branches on a result, a helper by clauses carries the branches. A method of a struct
-- that it changes gives the new state back. A function with a result and an error returns `Result`,
-- or a pair where it returns both at once. Strings are lists of bytes. An int64 is its bit pattern,
-- and its additions are taken modulo 2 ^ 64. What a call draws from the random generator, or from
-- the UUID generator, is a function of the number of the draw.
--
-- Parameters: net/url's Parse, net/netip, math/rand's Intn, the UUID generator, encoding/json, the
-- compressors, golang-jwt, base64, pflag, the environment, the file system, crypto/rsa and
-- crypto/x509, zap's ParseLevel, chi, the network, the clock, and PostgreSQL with pgx, pgxpool and
-- golang-migrate. The hypotheses about them are IsIntn (Intn returns a number below its bound),
-- IsCoded (a record is written as one line that parses back to it), IsLibrary (a token whose expiry
-- NewNumericDate made and whose user id is an encoded UUID parses to its claims until it expires,
-- and the encoding of a UUID is not empty), Generates and SignsAll (the UUID generator and the
-- signing have no error), IsTable (what the SQL statements do with the table while the connection
-- works, for paths of letters and digits and values that fit the columns), and Works, which joins
-- those that a link needs and says that the cookie of a signed token is read back. What chi finds
-- for a request is a hypothesis about this request, as in IsPost, IsGet and IsDelete.
--
-- Bounds and fuel: the loop of storeURL is recursion on its three rounds. The loop that reads the
-- file is recursion on fuel, which is one more than the length of the file; File/Fuel is about it.
-- Without fuel it ends by an error of its own, out_of_fuel.
--
-- Not modelled: logging, contexts apart from the values they carry, deadlines and timeouts, and the
-- texts of errors where they print values; write errors in the middle of a dump or of a response;
-- the order in which Go iterates over a map is the order of the entries. The listeners, the handlers
-- of the profiler, the tracers of the database, gRPC's reflection, and cmd/staticlint, which hands
-- its analyzers to a library, are not modelled. In App the loop of the deletion queue ends, or gets
-- stuck, in one step, and the requests that a server serves are steps only where its shutdown drains
-- them or stalls.
pub mod Analyzers
pub mod App
pub mod Auth
pub mod Base
pub mod Buffer
pub mod Certificates
pub mod Command
pub mod Config
pub mod Database
pub mod EndToEnd
pub mod Errors
pub mod File
pub mod Filter
pub mod Generators
pub mod Grpc
pub mod Http
pub mod Links
pub mod Memory
pub mod Model
pub mod Resolver
pub mod Session
pub mod Shortener
pub mod Status
pub mod Users
