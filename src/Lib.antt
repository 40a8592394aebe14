-- ===== src/Lib.antt =====
-- A verification library for the online schema migration tool of this repository (gh-ost): the parts
-- of go/sql, go/mysql, go/base, go/binlog and go/logic that decide what is done.
--
-- The program. A migration makes a ghost table next to the original one, copies the rows in chunks of
-- a unique key, applies the changes that it reads from the binary log meanwhile, and swaps the tables.
-- The inspector and the applier are connections to two servers; the streamer reads the binary log and
-- hands its events to the migrator's queue; the migrator takes them out in batches and has the applier
-- apply each batch in a transaction, between the chunks of the copy; the throttler holds all this up
-- while a measure asks for it. They share the migration's context.
--
-- The files, and what each models:
-- - Base, Text: no part of the program. Results, signed integers and maps; strings as lists of bytes
--   with what the source uses of the packages `strings` and `strconv`, and their laws.
-- - Sql: go/sql. Value and Columns are types.go and encoding.go; Compare, Queries and Dml are builder.go,
--   in the order of the file. Below Compare, Meaning gives the comparisons a syntax and a meaning.
-- - Mysql: go/mysql. Coordinates is binlog.go, InstanceKey is instance_key.go, InstanceKey.KeyMap is
--   instance_key_map.go, and InstanceKey.Master is the search for the master of utils.go.
-- - Context: go/base. context.go and load_map.go by what uses the fields: names, settings, loads, and
--   throttling; Context.Validate is utils.go.
-- - Binlog: go/binlog. Binlog.Reader is the part of gomysql_reader.go that turns events into entries.
-- - Logic: go/logic. Throttler is throttler.go; Applier is the part of applier.go that applies events
--   (Apply is the transaction), copies rows (Range), and makes, drops, locks and renames tables
--   (Tables). The files for migrator.go are Migrator, the attempts and the queue; RowCopy,
--   `iterateChunks`; WriteFuncs, `executeWriteFuncs`; CutOver, `cutOver` with the two-step swap (Await
--   is `waitForEventsUpToLock`); Changelog, the states that are written to the changelog; and
--   Migration, the order of `Migrate` and its ends. Operations strings functions that return an error
--   together. Streamer is the listeners of streamer.go; Inspector is the shared columns and keys and
--   the grants of inspect.go; Server is `applyServerCommand` of server.go, the commands of users.
-- - Logic.CutOver.Atomic: `atomicCutOver` of migrator.go and the goroutines `AtomicCutOverMagicLock` and
--   `AtomicCutoverRename` of applier.go, as a step relation. State has where each goroutine is, the
--   channels with their messages, the flags, and the history of what was done at the server; MagicLock,
--   Rename and Main have the moves of each; Steps interleaves them in any order.
-- - Tests: runs at concrete inputs.
-- A definition has the name of the Go function that it translates, in small letters.
--
-- Conventions. A function that returns an error returns a `Result`; a panic of Go is an error of its
-- own. Numbers are natural or signed; a result that can leave the range of `int64` is wrapped by
-- `wrap64`. A Go map is a list of entries in the order in which a range visits them. Locks and atomic
-- loads are left out: a function is one step. The texts of errors and the log are left out, but for
-- the reasons of throttling, which the program compares.
--
-- What code outside the repository does is a parameter: the databases, the clock and the files (the
-- records `World` and `Database`), the rows of a query, the decoders of golang.org/x/text
-- (`Encodings`), the answers of servers to the queries about them, and `sort.Strings`. Where a goroutine
-- waits for a server, the server may carry a statement out or refuse it, each time anew. Parts of the
-- program that call each other meet in records of operations (`ChunkOps`, `WriteOps`, `CutOverOps`,
-- `MigrateOps`).
--
-- Loops are structural recursion, but for two that take fuel: the search for the master, where more
-- fuel than there are servers is enough, and the emptying of the queue, where its length is enough. The
-- goroutines of the row copy take turns in any order, which is a list of moves. What arrives from outside, as the events
-- that a wait is for or what fills the queues of `executeWriteFuncs`, is a list of arrivals.
--
-- Not modelled: the parser of go/sql/parser.go and DetachedCoordinates, which are regular expressions;
-- go/logic/hooks.go and go/cmd; connections, sockets, TLS, configuration files and the status report,
-- which are input and output; and of the files of go/logic what the entries above do not name. The count
-- of the rows in the background is run where it is started.
pub mod Base
pub mod Text
pub mod Sql
pub mod Mysql
pub mod Context
pub mod Binlog
pub mod Logic
mod Tests
