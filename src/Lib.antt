-- ===== src/Lib.antt =====
-- imapsync: two-way, append-only synchronization of mail folders.
--
-- The program reads the messages of a folder pair on two sides, A and B, indexes them by match
-- keys, takes the messages that one side lacks, and appends them to it. It never deletes mail. A
-- pool of workers does this for every user, cycle after cycle; a SQLite database holds the lists
-- of users and folders, a cache of parsed messages, and the history of runs.
--
-- Which file models which part:
-- - Base: numbers, texts (a text is the list of its bytes), lists, maps as association lists,
--   errors, times, durations (ℤ), sorting.
-- - Mailbox/Message: internal/mailbox/message.go. `parse_fields`, `match_keys_from` and the
--   other functions keep the names of the source. The record `Mail` stands for net/mail, mime,
--   crypto/sha256 and the case tables of unicode.
-- - Endpoint: the interface of internal/endpoint/endpoint.go as a record of operations on a
--   session's state, and `with_header`. The code that uses a session takes such a record as a
--   parameter.
-- - Endpoint/Backends: what is built from a server's configuration: NewBackend, TLSConfig and
--   Addr.
-- - Endpoint/Maildir: internal/endpoint/maildir.go. Maildir has the names of files and folders;
--   Disk the calls of os and path/filepath, on a disk of directories and files any of whose
--   calls may be refused; Session the selected folder with its index of files, `select` to
--   `append`; Folders connecting, listing and creating. Flags and Delivery have the proofs.
-- - Mailbox/Client: internal/mailbox/client.go. `Protocol` stands for go-imap: each command with
--   its answer; a FETCH delivers its messages and then its outcome. Folders has LIST, its cache,
--   ResolveFolder and CREATE; Fetching has FETCH by sequence numbers and by UIDs, SEARCH and
--   APPEND. Connecting has Connect, with the network as the parameter `Dialer`, and DebugLog the
--   writer of the wire log; its fuel is the length of the buffer, of which each round takes at
--   least the newline.
-- - Endpoint/Imap: internal/endpoint/imap.go, a session on such a client. strconv.ParseUint is
--   `parse_uint32`.
-- - Endpoint/Ews: internal/endpoint/ews.go. `Service` stands for HTTP with its authentication,
--   XML and base64: it sends an envelope and reads the responses. Soap has the requests and
--   `call`, Session the operations. Auth has the credentials and the cache of tokens of
--   internal/endpoint/ews_auth.go, and Post the request that they authorize, with net/http as
--   the parameter `Http`; times are passed in. The fuel of `list_pages` is a number of pages;
--   the server decides how many there are.
-- - Endpoint/Pst: internal/endpoint/pst.go. What go-pst reads of a folder or a message is a
--   record; `Codec` stands for the encodings of the standard library. Pst has the header fields,
--   Body the rendering of a message, Session the operations.
-- - Base/Batches: the loop that works off a list in slices.
-- - Dedup: internal/dedup/index.go. An `Index` has the map from keys to entries, the entries in
--   order, and the number of duplicates; `add` is one round of BuildFrom, `missing` and `delta`
--   compare two indexes.
-- - Config: config/config.go. Defaults has applyDefaults; Servers has validateServer and
--   ParseTLSVersion; Validate has validateBase and ValidateEntities; Load has Load and
--   LoadEntitiesOnly on what the YAML decoder gives. A check returns `none` or the first error
--   as a value. The case tables and the loading of a CA file are parameters.
-- - Store: internal/store. A table is a map from its primary key to its row. An operation takes
--   the error that the database reports for its statement, if any, and returns its result with
--   the new store; the texts in front of such errors are shortened. An operation in a
--   transaction fails as a whole. Users has the lists, State the message cache, Runs the outcome
--   of each run and the error streak, with Runs/History on how many rows are kept. Valid and its
--   children have what holds of every row that the lists' operations write. Opening has Open on
--   a database file in which tables and columns may be missing. Lock has OpenExclusive and
--   Close; the interface `Flock` states what flock does, each call on a descriptor of its own,
--   and two paths are taken to be two files.
-- - Cli: cmd/imapsync. Commands and Listing have the db-* subcommands with their output, Csv the
--   imports from CSV files, Dispatch the choice of the subcommand and the exit code, Daemon
--   cmdRun and the part of runDaemon that decides on the database. The package flag is a
--   parameter: a subcommand gets the values of its flags. Steps has all sequences of subcommands
--   as a relation, Loading and Removal what they make of the lists.
-- - Stats: internal/stats/stats.go. Counters stand at addresses in a heap, as a worker changes
--   them through a pointer.
-- - Syncer/Discover: internal/syncer/discover.go. Slots carry the flags matchedA and usedB.
-- - Syncer/Index, Syncer/Copy, Syncer/Pair: indexFolderFull, indexFolderIncremental, copyMissing
--   and syncPair of internal/syncer/syncer.go, with the sessions' states, the store and the
--   counters passed along. `World` holds what happens outside: the clock, the context, and the
--   errors of the database. `%q` is the parameter `quote`.
-- - Syncer/Incremental: the proofs on the incremental pass: Built on its index, Kept on the
--   cache that it leaves.
-- - Syncer/Dial: dial, resolveFolders and userStopped. Attempts are counted down from the
--   retries, so no fuel is needed.
-- - Syncer/User: connect, the loop of SyncUser over the pairs with its reconnect, and
--   persistStatus; User/Whole has SyncUser as a whole, with the collector and the network
--   outside. Each call of syncPair has a `World` of its own.
-- - Syncer/Pool: internal/syncer/pool.go. A cycle is a step relation on the users that wait,
--   that are in work and that are done; Syncer/Pool/Reload puts the reading of the lists before
--   it.
-- - Tests: the theorems at concrete inputs.
--
-- Bounds: the loops are structural recursions. DeleteCachedMsgs works in batches of 400 ids; the
-- number of ids is its fuel, and each batch removes at least one id. The loop of FetchHeaders
-- has as fuel the number of messages, which is enough while that number and the batch size stay
-- below 2 ^ 32 together; a batch size below 0 stops the program, which is not modelled. Counters
-- are natural numbers and taken to stay below 2 ^ 63. Times are nanoseconds since 1970, without
-- a bound.
--
-- Not modelled: white space beyond ASCII where TrimSpace is called, the goroutine that closes an
-- IMAP connection on cancellation, the NTLM handshake, opening a PST file and recovering from a
-- panic of its library, the decoding of YAML and of flags, signals, the usage text, the wiring
-- of the daemon's parts, and logging; the fake server of internal/endpoint/ewstest, which only
-- tests use. Messages for the log are left out everywhere.
pub mod Base
pub mod Mailbox
pub mod Endpoint
pub mod Dedup
pub mod Config
pub mod Syncer
pub mod Stats
pub mod Store
pub mod Cli
pub mod Tests
