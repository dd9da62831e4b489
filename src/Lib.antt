-- ===== src/Lib.antt =====
-- shudo runs commands as root after root has approved them. A user submits a request over a local
-- socket, the daemon stores it with a hash, root decides, and the daemon checks everything again
-- before it starts the command. This library models the daemon's core: the store, the policy, the
-- verification of files, the submissions, the decisions, the execution, the watching and the limits;
-- and the logic of the two programs around it.
--
-- The parts and their files:
-- - Model: the requests, approvals and statuses of internal/model/model.go.
-- - State: the store of internal/state/state.go. Tables has one list for each SQL table; Sql has
--   what the statements mean on a list; Requests, Approvals, Output, Retention, Startup and Listing
--   have the operations under the names of the Go methods. A transaction is a function from tables
--   to tables or an error, and `transaction` says what is left when it fails, or when its start or
--   its commit does. State.History puts every operation that writes into one type of steps, and
--   runs sequences of them. State.Life is what the store promises of one request without its tables,
--   a machine with a status and one ballot, and the view of the tables as a state of it.
-- - Policy: Load, Evaluate, matches, policyPaths and glob of internal/policy/policy.go. Policy.Glob
--   has the reading of UTF-8, the expression of a pattern as a list of atoms, and of Go's regexp the
--   matching of such expressions; Paths has
--   filepath.Clean, Join, Base and Dir, Strings has strings.TrimSpace and decimal numbers.
-- - Integrity: internal/integrity/integrity_linux.go. Integrity has OpenVerifiedExecutable,
--   OpenVerifiedDirectory and SanitizeEnvironment, Resolve ResolveExecutable, Shebang
--   inspectShebang, and Inspect InspectExecutableAndInterpreter, InspectDirectory and Risk. Pinned is
--   internal/integrity/exec_linux.go.
-- - Daemon: internal/daemon/service.go. Authority is who calls, Limits the admission counters (and
--   in Present what is in progress, which they count),
--   Decide the calls Approve, Deny and Cancel, Execute the function `execute`, Submission
--   validateSubmit and RecoverApproved, Submit the call Submit, Watch the call Watch, Records
--   ListRequests, InspectRequest and RunMaintenance, Start the limits of New. Credentials has the
--   handshake of internal/localcreds/credentials_linux.go. Calls puts what happens to a running
--   daemon into one type and runs sequences of it; the modules Serviced below each handler show that
--   it changes the tables by steps of the machine only.
-- - Crypto: the identifiers of internal/cryptoutil/crypto.go, and internal/securejson/securejson.go.
-- - Shudod: apps/daemon/cmd/shudod/main.go, where the daemon is its own helper, in Chain and Files
--   the checks of root's files and of the directories above them, and in Serve the start of `run`.
-- - Cli: apps/cli/cmd/shudo/main.go. Parse has parse and parseAdmin, Select selectRequest, Reconcile
--   decisionResponseFromRecord, Admin runAdmin, Command runCommand up to the answer of Submit, Receive
--   its loop over the streams of Watch, and Render the text and the maps that root is shown. The
--   command and the daemon meet in the records and events of Daemon.
-- - Config: LoadDaemon of internal/config/config.go, on signed integers as in Go.
-- - Prelude has the shared tests, lists, texts and results; Tests has concrete runs.
--
-- How the program's state is kept: a table is a list of rows, a text a list of bytes, a map of
-- counters a function that is 0 where the map has no key. Each operation takes the tables and
-- returns its answer with the tables that it leaves. The store runs one operation at a time, since
-- the database has one connection, so that goroutines interleave as sequences of operations.
-- `execute` and `Submit` are each modelled as one run; that other operations come between two runs is
-- part of the theorems on `execute`, that they come between a run's own reads and its commit is not.
-- The transaction `begin_execution` of `execute` is also a step of its own in the histories.
--
-- What is a parameter: encoding/json, time.Parse and SQLite's julianday and json_extract (`Codec`),
-- the hash of a request, the file system and SHA-256 (`Host`, `eval_symlinks`), the YAML decoder,
-- the clock, random bytes, base64, the canonicaliser of JSON, the free space on the disk, whether a
-- transaction begins and commits and a statement of AppendOutput runs, and the process that runs.
-- Serve ends where the start does: the goroutines of the approved requests run `execute` from the
-- recovered tables on, before the server serves as well as after, and Calls has such runs.
--
-- The other parameters of the command are time.ParseDuration, strconv.Atoi, strings.ToLower and
-- strconv.QuoteToASCII.
--
-- `Watch` and the command's loop run over a list of rounds or attempts: each names what other calls do
-- to the tables, or what a stream delivers, and the answer is `none` where the list ends first.
-- verifyDirectoryChain takes fuel, one more than the bytes of the path, and Shudod.Chain.Ends shows
-- that it is enough for an absolute path. All other functions are total by structural
-- recursion. The machine integers that are computed with are counters and sizes, which limits bound
-- far below their width, and the times of a file, whose sums wrap around at 64 bits as in Go.
--
-- Not modelled: errors of single statements outside transactions, but for the two statements of
-- AppendOutput, the host name and the texts of
-- messages, the gRPC server and the signals of shudod, the events of a stream as JSON, and the
-- generated code.
pub mod Prelude
pub mod Model
pub mod Crypto
pub mod Shudod
pub mod Cli
pub mod State
pub mod Paths
pub mod Strings
pub mod Integrity
pub mod Daemon
pub mod Policy
pub mod Tests
pub mod Config
