-- ===== src/Lib.antt =====
-- Verification of in_memory_base, a key/value server: a line protocol (SET, GET, DEL) over an
-- in-memory hash table with a write-ahead log. Paths below are from the repository's root.
--
-- The parts, and the modules that model them:
--   Compute (internal/database/compute): the parser of a line. Compute.Grammar says what it accepts.
--   Database (internal/database/database.go): the dispatcher from tokens to the storage layer.
--   Storage (internal/database/storage/storage.go): passes calls on to the engine.
--   Engine (storage/engine/in_memory/engine.go, id_generator.go and internal/lib/context_util): LSNs, writes
--   to the WAL, reads from the hash table.
--   HashTable (storage/engine/in_memory/hash_table.go).
--   Wal (storage/engine/in_memory/wal): push, the flusher, the writer and recovery. Wal.System has all
--   callers and the flusher together, each taking its steps in any order.
--   Filesystem (storage/engine/in_memory/filesystem): the segment files.
--   Concurrency (internal/concurrency): promises and futures, and the semaphore.
--   Network (internal/network, internal/initialization/network_tcp_initializer.go): the settings of the
--   TCP server, its accepting goroutine with the semaphore, and the loop of a connection, over what the
--   connection answers in each round; a request of the TCP client.
--   Initialization (internal/initialization): NewInitializer and CreateWal, and what they refuse.
--   Cli (internal/application_cli/cli_app.go): the flags, the connection and the loop over the lines of the
--   input.
--   Configuration (internal/config/config.go): NewConfig, over cleanenv and the validator.
--   Logging (internal/lib/logger, internal/initialization/logger_initializer.go): the handler of log records.
--   Service: the layers put together, as internal/initialization puts them together. Service.Spec says
--   what a client can rely on, a map from keys to values in which an acknowledged write may come to be
--   seen a little later; Service.Session has a conversation with the program, and Service.Started one
--   with a server from its start on.
-- Base has the shared types and lemmas, and Tests the theorems at concrete inputs.
--
-- A request goes from Database.Handler through Storage and Engine.Calls, which takes an LSN and puts
-- it into the context, to Service.Call, which is Wal.push with its wait: the request joins the open
-- batch (Wal.Batch), the flusher (Wal.Flusher) hands a batch to the writer (Wal.Writer), which writes
-- one gob stream to the segment (Filesystem.Segment) and resolves the promises, and then the records
-- are applied to the hash table, which GET reads.
--
-- State is passed explicitly. A method that can wait for good or panic gives an Outcome, a method of
-- the segment is a Method, which keeps the state on an error. Loops are structural recursion on the
-- list they go over, so no fuel is needed; the digits of a number, in Base.Decimal, have 20 steps of
-- fuel, enough for every int64.
--
-- How the model stands to the code:
-- - A text is the list of its runes. An invalid byte is U+FFFD, as `range` over a string gives it.
--   The upper case of a rune outside ASCII (unicode.ToUpper) is a parameter, `upper`.
-- - gob is modelled by its messages: the first value of an encoder is preceded by the definition of
--   its type, and a decoder refuses a second definition of a type or a value before it. How many
--   bytes a message has, and whether the encoder takes a record, is the parameter Gob.
-- - What the operating system answers (time, errors of open, write, sync, stat and read, and what a
--   failed write leaves behind) is the parameter Os, a value for each call that asks it.
-- - LSNs are int64 with wrap-around. Sizes are natural numbers: theorems bound them by the configured
--   limits, which are far from the bounds of an int64.
-- - sort.Slice is insertion sort; Base.Sort shows that with distinct keys any sorted permutation is
--   the same list. sort.Strings compares runes, which for UTF-8 is the order of the bytes.
-- - A section under a mutex is one step. Wal.System lets the steps of any number of callers and of the
--   flusher come in any order; there a Write is one step, and the application of one record another.
--   Service.Call composes the steps of a single caller and of the flusher: the call returns with the
--   Write of its record, which the flusher applies at a later time. When that is, is a parameter: for each
--   GET, whether the flusher is through with its loop when the table is read.
--
-- Not modelled: cleanenv and the validator, which are parameters; the error group of StartDatabase, which
-- waits for its one function; where the other components write log lines; WithLock, which makes the critical
-- sections single steps here; the mocks, which are generated; the process set-up in cmd.
pub mod Base
pub mod Database
pub mod Engine
pub mod Filesystem
pub mod HashTable
pub mod Compute
pub mod Concurrency
pub mod Service
pub mod Storage
pub mod Wal
pub mod Tests
pub mod Network
pub mod Cli
pub mod Initialization
pub mod Logging
pub mod Configuration
