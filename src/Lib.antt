-- ===== src/Lib.antt =====
-- doesnotfail2ban: a daemon that reads logs, catches the addresses of failed logins by regular
-- expressions, and bans them.
--
-- A parser polls a log and hands its new messages to each watcher of its pipeline. A watcher loads them
-- into the pipeline's message buffer, runs its filters over the buffer, and gives the messages that were
-- caught, by address, to the ban manager. The manager counts the fails of an address, in its cache and in
-- the database, and calls a bouncer when the watcher's threshold is reached. A second thread lifts the
-- bans that have ended.
--
-- Structs.antt: src/dnf2b/data/Structs.hpp, and the messages and rows of other headers.
-- Config.antt: src/dnf2b/json/Config.hpp, the settings. Config/Json: the configuration from JSON and to it.
-- Durations.antt: src/dnf2b/util/Parsing.cpp, and src/dnf2b/json/JsonImpl.cpp. Durations/Seconds: the
--   units.
-- ReadState.antt: src/dnf2b/data/ReadStateDB.cpp. ReadState/Reading: reading after
--   storing, in the same run and in the next.
-- Bouncers.antt: src/dnf2b/bouncers, the bouncers and the calls of their methods. Bouncers/IpTables: the
--   shell commands of IPTableBouncer.cpp, the last first in a list; Bouncers/Rules: its constructor.
-- Pcre.antt: src/dnf2b/util/PCRE.cpp; `Pcre` is the interface of pcre2, `next` and `get` the matcher's.
-- Filter.antt: src/dnf2b/filters/Filter.cpp, checkMessage. Filter/Matching: which pattern it answers for;
--   Filter/Files: the constructors and getPathFromFilterName; Filter/Expansion: the loop that replaces the
--   keys of a pattern; Filter/Building: the patterns of a filter; Filter/Locating and Slashes: its file.
-- MessageBuffer.antt: src/dnf2b/data/MessageBuffer.cpp: `load`, `forward`, `done` and what they call.
--   MessageBuffer/Loading, Caught and Ageing are about these three; MessageBuffer/Disabled: all that the
--   first two do where the buffer is disabled.
-- Watcher.antt: src/dnf2b/watcher/Watcher.cpp, `process`. Watcher/Merging: how catches come together;
--   Watcher/Disabled: all that is caught where the buffer is disabled.
-- Parsers.antt: src/dnf2b/sources/Parser.cpp. Parsers/Files: src/dnf2b/sources/FileParser.cpp;
--   Parsers/Lines: polls of a log that grows or is cut.
-- Journal.antt: src/dnf2b/sources/JournalCTLParser.cpp, the journal's reader. Journal/Polling: the parser
--   over it; Journal/Dates: the dates of messages; Journal/Restarts: the next run; Journal/Loader:
--   src/dnf2b/sources/ParserLoader.cpp.
-- BanDb.antt: src/dnf2b/data/BanDB.cpp, each method as its SQL statements on three lists of rows.
--   BanDb/Rows: single rows and the UNIQUE constraints; BanDb/Loading: loadIp after updateIp; BanDb/Unbans:
--   expired and standing bans; BanDb/Others: other addresses; BanDb/Refinement: the calls on an abstract
--   view.
-- BanManager.antt: src/dnf2b/data/BanManager.cpp: `log`, `load_rebans` and `check_unbans_and_cleanup`.
--   BanManager/Construction and Starting: the constructor; BanManager/Rounds: the outcomes of a round of
--   `log`; BanManager/Durations: the lengths of bans; BanManager/Whitelist: isWhitelisted, and in its child
--   Networks what it answers; BanManager/Safety: the calls that `log` makes; BanManager/Invariant: the
--   state's invariant; BanManager/Ban: bans, their length, and fails below the threshold;
--   BanManager/Standing: the bans that stand; BanManager/Cleanup: loadRebans and checkUnbansAndCleanup;
--   BanManager/StaleCache: bans that the cache keeps too long; BanManager/Others and Due: whole runs of
--   `log`, and the address that is due; BanManager/Counting and its child Runs: an address below the limit;
--   BanManager/Causes: what a run bans; BanManager/Overflow: durations that overflow; BanManager/Restart:
--   fails when the cache is gone.
-- Daemon.antt: src/dnf2b/core/Daemon.cpp, `reload` and a poll of a pipeline. Daemon/Reloading: the
--   pipelines; Daemon/Running: polls and rounds of the unban monitor in any order; Daemon/Starting: the
--   constructor; Daemon/Banning, Polls and Polls/Reaching: from log lines to the ban, in one poll and over
--   many; Daemon/Threads: `run`, `wait` and `shutdown` of src/dnf2b/core/Daemon.hpp, the threads step by
--   step; in its children Order, Left and Stopping, how they start and end, and in Waking, whom a shutdown
--   wakes; Daemon/Calls and Daemon/Threads/Calls: the calls of bouncers that they make.
-- Cli/Tester.antt: src/dnf2b/cli/Tester.cpp; Cli/Tester/Matches and Ending: what its loop prints, and that
--   it ends. Cli/FilterWizard.antt: src/dnf2b/cli/FilterWizard.cpp; Cli/FilterWizard/Dialogue and Kept:
--   whole dialogues; Cli/FilterWizard/Output: its JSON. Cli/Main.antt: src/dnf2b/Main.cpp.
-- Prelude.antt: what all share; Prelude/Maps is std::map with string keys, Prelude/Results exceptions.
-- Tests.antt: the theorems on concrete inputs.
--
-- Numbers: `int64_t` and `long long` are integers; the product in the ban's duration wraps at 64 bits, and
-- the clock, the counts, the sums in SQL and a watcher's limit as an `int` are taken to stay in range; the
-- date of a journal's entry wraps. `size_t` is ℕ, with the wrap-around of `substr`'s length written out.
-- Loops run over lists and are structural recursion. Three loops have fuel: the one over the keys of a
-- pattern gets one round more than the pattern has bytes, each round uses up bytes; the tester's over the
-- matches one more than there are patterns, each round moves the offset; the wizard's over what is typed
-- one more than the lines, each round reads a line.
--
-- Parameters: asio's addresses and networks (`Asio`), pcre2 (`Pcre`), inet_pton, std::pow with its cast,
-- libsystemd and its entries, the file system, the reading of JSON, CLI11, std::stoll and std::stoull,
-- std::get_time over the local time, the answers of shell commands, the daemon's loaders of parsers and
-- filters, the JSON values of the read state and their text, and the clock. JSON objects stand as records of the keys
-- that are read. What the code relies on stands as hypotheses: inet_pton knows both families, and the
-- groups of the patterns take part in each match, a stored number is not null and is read back as it was,
-- the text of a JSON state is read as that state, asio reads each address that inet_pton accepts, and pow is
-- exact on a power of two that fits an int64_t.
--
-- Not modelled: locks, and rounds of threads that overlap: a round, from the test of isRunning to the wait,
-- runs alone, though the source shares the manager's cache between threads. A round that throws is a step,
-- and the last one. Not modelled either: SQLite's files, exceptions of a bouncer's methods, a journal's pointer
-- that is unset but not null, fixed texts that are printed, and logging. A thread's times are not counted: a
-- wait may end at any step.
pub mod Prelude
pub mod Structs
pub mod Config
pub mod Bouncers
pub mod Pcre
pub mod Filter
pub mod MessageBuffer
pub mod Watcher
pub mod Parsers
pub mod Durations
pub mod ReadState
pub mod BanDb
pub mod BanManager
pub mod Journal
pub mod Daemon
pub mod Cli
pub mod Tests
