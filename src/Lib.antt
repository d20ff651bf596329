-- ===== src/Lib.antt =====
-- The time tracker: a daemon that records when files are written under watched directories, and a
-- command line that shows the time worked.
--
-- The parts and where they are modelled:
-- - pkg/escape/escape.go: Escape and Unescape, in Escape. A Go string is a list of code points
--   (Base/Text).
-- - client/api.go: the requests and responses, in Client.
-- - watch_daemon/interval.go: the Collector that turns ticks into intervals, in Collector. The int64
--   arithmetic wraps around (add64 and sub64 of Base/Int).
-- - watch_daemon/clock.go: the clock of the tests, in Clock. The operations take the time as an argument.
-- - watch_daemon/api_impl.go: the server. Server/State has its state (struct server) and the ways in
--   which a call may end; Server/Handlers its operations: new_server, tick, watch, get_watches,
--   get_intervals, clear, sync_watches and their helpers; Server/Watches the loop of syncWatches that
--   aligns the running watches with the database, with the pointers of the map as places in a heap;
--   Server/Intervals the body of GetIntervals; Server/Recording the goroutines recordWritesInDB and
--   syncWatchesLoop, each as the sequence of its rounds, and handleEvent. Server/Calls has all of these as
--   the steps of one history of the server, of which Server/Running, Server/Lasting, Server/Runs,
--   Server/Keeping, Server/Answering and Server/Worked speak; Server/Watching has the goroutines of one
--   watch together, the watcher with handleEvent as its callback and recordWritesInDB.
-- - watch_daemon/logging_api.go: LoggingAPI, which stands between the handlers and the server, in
--   Server/Logging.
-- - watch_daemon/http_api.go: the handlers watch, tick, getIntervals, getWatches and clear, in Http,
--   with what Go's library reads of a request in Http/Request; misc, status, viz and the ServeMux of
--   ToHTTPServer in Http/Serve. Base/Paths has the functions of Go's package path.
-- - watch_daemon/viz.go: MarshalJSON and Start, in Viz.
-- - client/client.go: the calls of Client, in Remote, with the reading of its URLs; what is sent over
--   the connection is the call of the handlers.
-- - cli/main.go and cli/cmdutil.go: dayRow, and BoundedCommand, in Cli; the texts that are printed in
--   Cli/Rows.
-- - cli/bar.go and pkg/timecmp/timecmp.go: the bar of a day's intervals, in Cli/Bar, and barBuf, in
--   Cli/Bar/Buffer, with what is written as a list of characters and of commands to the terminal; the
--   bytes of the commands in Cli/Bar/Sgr, and a terminal that obeys them in Cli/Bar/Terminal.
-- - pkg/watcher/watcher.go: the watcher, in Watcher: Watcher/Scan has add and applyWatchEvent,
--   Watcher/Events forEachEvent and toWatchEvent, Watcher/Run the loop of run and Watch, Watcher/Print
--   String and Render. The system calls are the parameter Os, whose state other processes change too; the
--   callback is a function that answers whether it succeeds, and the watcher keeps what it was given.
-- - cli/main.go: getCLIClient and the week, today, watch, watched, serve and status commands, in
--   Commands, and what main tells of all commands to the library that runs them in Commands/Wiring.
--   The terminal is a list of lines.
-- - pkg/check/check.go: the checks of the tests, in Check, with a value as what Go's package reflect tells
--   of it; reflect.DeepEqual is a parameter.
-- - watch_daemon/testlib.go: the daemon of the tests, in Testing.
--
-- The handlers call the server, the server calls the collector and the database, and the command line
-- reads what GetIntervals answers. An operation takes the server and returns it as it leaves it; dbMu
-- is a field that says whether a returned call still holds it, and a call that then needs it is
-- `blocked`. Panics are the outcome `crashed` (`panics` inside a call); in a handler Go's library recovers
-- from them, and the client gets no answer. The client's calls go through LoggingAPI and the handlers to
-- the server, and the watch command goes through the client.
--
-- The database is the parameter Database, whose statements are the daemon's own; what SQLite is
-- documented to do with them is the record Rules of Database/Rules, for labels and directories that %q
-- leaves as they are. That a SELECT of ticks, which has no ORDER BY, reads them in the order of their
-- times is not one of these rules, but a hypothesis of the theorems on GetIntervals. Database/Memory is
-- a database that keeps the rules, on which the theorems are tried out in Tests; it reports a DELETE
-- that would delete something as an error.
--
-- The loop of syncWatches runs on fuel, the lengths of its two lists and one more, of which each round
-- takes one. A scan of the watcher takes a unit of fuel for each level of directories. The loop of
-- forEachEvent takes the number of its bytes, of which an event has 16 at least, and the printing of a
-- number takes one more than the number, which each digit divides by 10. getCLIClient has its own bound,
-- two rounds, and StartServing sixty. All other loops are structural recursion.
--
-- Not modelled: opening and pinging the database, sleeping, logging and listening on a port; the setting
-- up of flags by cobra and the tick command, which does not compile; the tests themselves, the generated
-- assets and the web page. A field that only decides what is logged (start of a watch) is left out.
pub mod Base
pub mod Escape
pub mod Client
pub mod Database
pub mod Collector
pub mod Clock
pub mod Check
pub mod Server
pub mod Http
pub mod Cli
pub mod Viz
pub mod Remote
pub mod Commands
pub mod Watcher
pub mod Testing
pub mod Tests
