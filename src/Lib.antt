-- ===== src/Lib.antt =====
-- LocalDrive, a file storage server in Go.
--
-- The program: HTTP handlers (src/api) answer the web client. They call the gateways (src/db_gateway),
-- which write SQL with a query builder (src/sqlquery) and run it on MySQL. Passwords are hashed with
-- Argon2id and kept as PHC texts (src/hasher). A file is uploaded in chunks: the file handler keeps a
-- session per upload, writes each chunk to the disk, and joins the chunks at the end.
--
-- The parts, each with its files:
--   Base        the shared names: Go strings as lists of bytes, maps as association lists, int and
--               its overflow (Base/Int), strconv (Base/Decimal), strings.TrimSpace (Base/Spaces).
--   Sql         src/sqlquery. Placeholder is utils.go; Node condition_node.go; Clause
--               condition_clause.go with the QueryBuilder of sqlquery.go; Select, Insert and Update
--               the three statements. Statement is what a clause relies on in its statement, Calls a
--               chain of calls on a clause, Arity and Built their placeholders and arguments, Texts what
--               their texts depend on.
--   Hasher      src/hasher/hasher.go. Base64 is the standard library's raw encoding, Phc has Encode,
--               Decode and ParsePHC, Compare has Hash and Compare.
--   Users       validateUsername and validatePassword of src/db_gateway/user_gateway.go; Rules says
--               the same rules without the code's tests.
--   Files       src/file/file.go: File, NewFile, the rows of files; Flatten has the scan of
--               src/db_gateway/file_gateway.go, Walk has walk and Read over what filepath.Walk visits,
--               Walk/Parents their folders, Clean has StringClean.
--   Database    database/sql and the driver, a parameter; the errors of src/db_gateway/gw_errors.go
--               and file_gateway.go; execQuery of db_gateway.go. Database/Rows is SelectRows and
--               SelectRow of db_utils.go, over the scan of one row, Database/Utils its other functions.
--   Gateway     Files has the methods of src/db_gateway/file_gateway.go that use the query builder,
--               Effects what they do to the database; Files/Listing and Files/Changes have the methods
--               that write SQL text of their own (Files/Queries has the texts that select). Users is AddUser and
--               ValidateUser of src/db_gateway/user_gateway.go with src/user/user.go, Users/Login the
--               one after the other, Users/Accounts the other methods. Sessions is UpsertSession and
--               ValidateSessionAndGetUser of src/db_gateway/session_gateway.go, Sessions/Expiry and
--               Sessions/Renewal say when a session is valid, Sessions/Rows has the other methods.
--   Utils       RemoveDuplicates and StructToAny of src/utils/utils.go, and CheckRequestHeaderNotEmpty of
--               src/api/handler_utils.go.
--   DiskWriter  WriteToDisk and Exists of src/diskreadwriter/diskreadwriter.go.
--   Config      getConfig of app.go with GetFiles of src/utils/utils.go, and Search what it finds.
--   Api         the replies of src/api (errors.go, response_types.go, handler_utils.go) and the
--               session cookie.
--   Upload      the upload handlers of src/api/file_handler.go and mutex_map.go: Generate is
--               UploadGenerateId, Chunk UploadFileChunk, Complete UploadFileComplete and
--               UploadFileStatusFailed, Requests a history of them. The state is the map of sessions,
--               the keys of the mutexes, the disk and the database. Invariant holds of every session,
--               Recorded is about taking a chunk, Merge and Delivered about completing a
--               session, Held and Whole about all of an upload, Stuck about one that cannot be
--               completed. Overlap splits a chunk call at the mutex and at the directory, Overlap/AtOnce
--               puts the parts together, Overlap/Steps and Interleaved let such calls overlap, Kept is what
--               their steps keep; Twice splits a completing call once it has counted the chunks,
--               Twice/Lost is about two of them. Contract is what the uploads promise without paths
--               and disk, and that they keep to it, Contract/Others what it says of the uploads that
--               requests do not name.
--   Handlers    the other handlers of src/api over the gateways: Reads and Writes are those of
--               file_handler.go, Accounts those of user_handler.go and session_handler.go, Middleware
--               is api.go, Routes createServer of app.go. The handlers of uploads are given the file
--               gateway by `file_gateway`. Access says who reaches a handler, Strangers what requests
--               without a session do, Sessions and Registration what logging in and out mean for later
--               requests, RoundTrip joins the upload
--               and the download, Isolation says which queries a user's answers depend on
--               (Gateway/Files/Listing/Isolation those of the gateway).
--   Listener    src/server/server.go: the CORS headers around the routes (Preflights says what they
--               do), and the patterns that createServer of app.go registers (Patterns).
--   Start       main of app.go with src/config/server_config.go and NewConfig of
--               src/db_gateway/db_gateway.go. Variables is LoadEnv, Passwords what the databases are
--               opened with.
--
-- How code becomes definitions: a method that changes state takes and returns the state; an error is
-- a value of a result type; early returns are branches in the code's order. A clock, a generated ID, a
-- temporary name and what the operating system answers are arguments of a call. SHA-256, Argon2id,
-- strings.ToLower, path/filepath, YAML, godotenv and the database are parameters.
--
-- Bounds: int is 64 bits wide, and the overflow of the chunk index is written out; lengths and sizes
-- stay far below it. The loop of WriteToDisk runs on fuel, one more than the bytes of the content
-- being enough; all other loops are structural.
--
-- Not modelled: the listening of the server, the opening of a database and logging (input and output
-- only), the JSON of HTTP and its headers but those of downloads and of CORS (a handler is given the
-- decoded body and writes replies as values), the reflection of db_utils.go, and calls of the handlers
-- that overlap, save those for the chunks of one upload and two calls that complete it. Those for the
-- chunks are taken to get one mutex, and a lookup or a write in a map is one step, although the maps of
-- sessions and of mutexes are not synchronised: two mutexes for one upload, and the runtime's abort
-- where a lookup meets a write, are left out.
pub mod Base
pub mod Sql
pub mod Api
pub mod Upload
pub mod Gateway
pub mod Database
pub mod Config
pub mod Files
pub mod DiskWriter
pub mod Users
pub mod Handlers
pub mod Hasher
pub mod Start
pub mod Utils
pub mod Listener
