-- ===== src/Lib.antt =====
-- hunch: next-command prediction for the shell. A daemon learns which command follows which, and
-- offers the likely next one.
--
-- The parts, and how they work together:
--   A recorded command line goes through core/normalize: `Tokenize` (Tokenize.antt) splits it into
--   tokens, `unwrapPrefixTokens` (Unwrap.antt, its tables in Unwrap/Wrappers.antt) takes off
--   wrappers such as sudo, `classifyTokens` (Classify.antt, its list of parents in
--   Classify/Parents.antt) replaces values by placeholders, and `Normalize` (Normalize.antt) does
--   so for each segment between operators. core/redact/redact.go (Redact.antt) first turns away
--   lines that carry secrets. The patterns of both packages are expressions of Regex.antt.
--   core/graph/graph.go (Graph.antt, with Graph/Seed.antt for Merge and core/graph/seed.go, and
--   Graph/Decay.antt for Decay) counts the templates that follow a state;
--   core/graph/backoff.go (Backoff.antt) lists the states that one observation counts for.
--   Its export, All, is Graph/Export.antt. core/predict (Predict.antt, Predict/Score.antt) scores
--   and ranks the transitions of a state. daemon/rawstore.go (RawStore.antt, RawStore/Hydrate.antt)
--   keeps the concrete commands behind a template and fills them into suggestions.
--   daemon/handlers.go and daemon/daemon.go serve the requests, and each handler is a function of
--   the daemon's state: recording (Daemon.antt), the fallback ladder (Daemon/Fallback.antt), predict
--   and explain (Daemon/Suggest.antt, with the filters of Daemon/Filters.antt), import, reset, flush
--   and the sweep (Daemon/Seeding.antt), and the choice of the handler (Daemon/Serve.antt).
--   Daemon/Lifecycle.antt has what a daemon starts from, and its life as a relation of steps.
--   daemon/config.go (Config.antt) makes the options. core/eval/eval.go (Eval.antt) replays a
--   history and measures the predictions, and cli/import_history.go (History.antt) makes a seed out
--   of the history of a shell. ipc/runnable.go (Display.antt) decides what a client shows of a
--   suggestion. RcFile.antt is what cli/init.go and cli/uninstall.go do to the shell's start-up file,
--   and what cli/doctor.go looks for in it. The structs of core/types/types.go and ipc/ipc.go stand in
--   the modules that use them, and the transitions of an export, whose times ipc/ipc.go writes in
--   whole seconds, in Graph/Export.antt. Base.antt and its children hold what all share: byte
--   strings, Boolean tests, association lists.
--
-- How state and data are represented:
--   A string is the list of its bytes, and a time the number of nanoseconds since Go's zero time,
--   which is 0. A Go map is an association list with the order of insertion; where the code ranges
--   over a map, that is one of its possible orders. A mutex makes each method one step. The counts
--   of the graph and of the raw store are natural numbers, which Go's 64-bit int holds as long as
--   none is negative, which an imported raw example could be, and no count or sum of counts passes
--   2^63 - 1; the 32-bit flush counter keeps its wrap-around.
--   Floating-point numbers are a parameter (Floats.antt): the definitions compute with its
--   operations, and one theorem asks for the laws of the comparisons, which IEEE 754 has.
--   The compiler of a user's regular expressions, the reading of a request's time, the clock, the
--   file system, the decoders of JSON and TOML, the environment and whether the database takes what
--   is saved are parameters too. Durations are below 2^63 nanoseconds. sort.Slice is an insertion
--   sort by the same comparison, which gives the order of the code where all scores are numbers.
--   bufio.Scanner cuts a text into lines below its limit (History.antt). path/filepath.Clean is
--   modelled for Unix (Daemon/Paths.antt), with strings.TrimSpace for ASCII space.
--
-- Fuel: the unwrapping of nested wrappers runs on the number of tokens, which is enough since each
-- round takes off a token at least. The loops over the ancestors of a directory run on the length
-- of its name and one, which is enough since each parent of a clean absolute directory is shorter.
-- All other loops are structural recursion.
--
-- Not modelled: the SQLite store (daemon/store.go), of which only what it loads, with its times in
-- whole seconds, and whether it takes a save show; sockets, locks, timers and platform code; and the
-- command line (cli) but for the reader of histories and the start-up file. They are input and
-- output around the parts above.
pub mod Base
pub mod Tokenize
pub mod Unwrap
pub mod Regex
pub mod Classify
pub mod Normalize
pub mod Redact
pub mod Floats
pub mod Graph
pub mod Backoff
pub mod Predict
pub mod RawStore
pub mod Display
pub mod Config
pub mod Eval
pub mod History
pub mod Daemon
pub mod RcFile
