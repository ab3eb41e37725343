-- ===== src/Lib.antt =====
-- The miner hermit_miner: a CPU miner that takes jobs from a pool over the Stratum protocol,
-- searches the 32-bit nonces of a job with several threads, and submits the nonce that it finds.
--
-- The parts, and how they work together. The command line (Cli) and a JSON file (Config) give the
-- configuration, which is validated. With the pool enabled, the reconnect loop (Runtime.Loop) runs
-- sessions (Runtime.Session): a session connects a client (Stratum), waits for a job, searches it
-- (Mine) and submits the share. The search hashes (Sha256) a payload for each nonce and compares
-- the hash with the difficulty (Job). All parts call the logger (Logger).
--
-- - Base: the names and lemmas that all files share: Boolean tests on numbers (Tests), lists
--   (Lists), characters (Text), machine words (Word), the digits of a number in base 2 (Bits) and
--   what masks and shifts make of them (Fields), decimal and other digits with std::stoull
--   (Digits), order and powers of two (Order). Bytes and characters are numbers below 256; a w-bit
--   integer is a number with its wrap-around written out.
-- - Sha256: src/sha256.cpp. `sha256` is `btc::sha256`; `pad`, `schedule`, `rounds` and `blocks`
--   are its loops, in the order of the source, over one array of 64 words that all blocks share.
--   Sha256.Words describes the functions on words bit by bit, Schedule, Compression and Standard
--   describe the schedule, the rounds and the whole digest as FIPS 180-4 does.
-- - Job: src/lib/job.cpp. `meets_difficulty`, `hash_to_hex` and `hex_to_bytes`.
-- - Config: src/lib/miner_config.cpp. `MinerConfig` and `validate_config`; Config.Json is the
--   recursive reader of values, on fuel, and Config.Json.Print writes texts for it to read;
--   Config.Load is `load_config`, and Config.Load.Saved a file that it reads. A file system is a
--   function from paths to texts and an environment a function from names to values.
-- - Cli: src/lib/miner_cli.cpp. `parse_args` takes the arguments two by two; `parse_uint32` is
--   built on std::stoul with an unsigned long of 64 bits.
-- - Stratum: src/lib/stratum.cpp. Stratum.Patterns holds the regular expressions as matchers,
--   Stratum.Codec the texts of the messages, Stratum.Transport `send_line`, `receive_line` and
--   `request_response`, Stratum.Connect `connect_to_pool`, Stratum.Client the operations.
--   Stratum.Transport.Wire and Stratum.Client.Wire follow what is put on the socket,
--   Stratum.Transport.Waiting and Stratum.Client.Waiting what is heard, Stratum.Transport.Carried
--   and Stratum.Client.Offered which lines and jobs a script carries. What the socket and the
--   clock do is a script, one entry for each round of a loop, so that every loop is a recursion on
--   its script.
-- - Mine: `mine` of src/lib/miner_runtime.cpp, as steps of its threads over the atomics that they
--   share. Workers and Reach have the invariants of all interleavings, Hashes the counts of
--   hashes, Causes and Complete what the waiting thread may conclude from them, Ends what follows
--   when `stop` is set, and Result has the value that the function returns.
-- - Runtime: the loops of src/lib/miner_runtime.cpp. The client, the search, the clock and the
--   outputs are a record of operations over any world. Runtime.Health has the text of the health
--   file, `write_health_snapshot`, the rate over any type of doubles, and the reports behind the
--   loop; Runtime.Pool fills the record with the client of Stratum, Runtime.Session.Cycle goes
--   through a session operation by operation, Runtime.Guarded carries what every operation keeps
--   through the loops, and Runtime.Pool.Traffic follows the bytes on the socket.
-- - Main: `main` of src/miner.cpp, as `launch` up to the validated configuration and `run` behind
--   it.
-- - Logger: src/lib/logger.cpp. Logger.Event has the calls of the logger as values, Logger.Redact
--   `redact_sensitive_fields`, and Logger.Line `escape_json_string` and `Logger::log`,
--   Logger.Timestamp `get_timestamp`, Logger.File several calls one after the other, Logger.Stamp
--   the digits of a time stamp, and Logger.Reader what a reader finds in the log. Logger.Hides is
--   about sensitive values within a text. The clock, gmtime_r and whether the file opens are
--   arguments.
-- - FakePool: src/fake_pool.cpp, the pool that the program is tried against. `handle` is a round
--   of its loop behind `receive_line`, `serve` the loop over all that a client sends, `pool_main`
--   the main function behind its argument, which FakePool.Port reads. FakePool.Session,
--   FakePool.Cycle and FakePool.Loop run the loop of the runtime against it.
-- - Tests: runs at fixed inputs, and each theorem at inputs that meet its hypotheses.
--
-- Bounds and fuel. `parse_value` has fuel, one for each nested call, and one more than the length
-- of the text is enough. The loops of Runtime take a number of rounds and of sessions and give the
-- state that they are in when these are used up; what is said of a session and of the loop holds
-- of these states too, and a session returns with more rounds than jobs are to come. `serve` takes
-- a number of lines, and one more than the bytes that the client sends is enough. A count of
-- threads is below 2^32, and a message that is hashed below 2^61 bytes.
--
-- Not modelled. Sockets, name resolution, threads, clocks, files and std::regex are not code of
-- the repository: what they return is an argument. The Windows start-up and the destructor of the
-- client only call them. The elapsed seconds of a search and its progress lines on the standard
-- output (src/lib/miner_runtime.cpp) are left out, and the operations on doubles are a parameter
-- of the rate, whose text is an argument of the loops. The time stamp takes the fields that
-- gmtime_r gives. The structs `Job` and `Share` (src/lib/job.h) are used by no code. std::atoi is
-- a parameter of the port of the fake pool. The texts on the standard streams and the tests
-- (test/local_cert_tests.cpp) are left out.
mod Base
pub mod Job
pub mod Sha256
pub mod Logger
pub mod Config
pub mod Cli
pub mod Stratum
pub mod Mine
pub mod Runtime
pub mod Main
pub mod FakePool
mod Tests
