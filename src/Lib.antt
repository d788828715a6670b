-- ===== src/Lib.antt =====
-- Ancalagon, a harness that runs agents: a model of its core, with the theorems about it.
--
-- A run is a directory with a SQLite bus. A supervisor claims queued agents from the bus, spawns a
-- worker for each, reaps the workers that end or time out, and queues again the parents whose
-- children have news. A worker holds a session: it asks a model, runs the tools that the model
-- calls, and ends with an outcome. Agents delegate tasks to other agents through the bus.
--
-- The files, and the code that each models (paths from the repository's root):
--   Base and its children: lists, dicts, texts, paths, integers, exceptions as values, and methods
--     that change a state and may raise.
--   Contracts: ancalagon/contracts/, the values that the parts hand to one another.
--   Attempt: ancalagon/attempt/, `next_state` and `attempt_of`; Attempt/Table and Attempt/Folds
--     hold the theorems.
--   Bus: ancalagon/bus/lifecycle_store.py. Bus/Rows are the tables, Bus/Log `record` and the reads,
--     Bus/Queue `enqueue` and `claim`, Bus/Snapshots `snapshot`; Bus/WellFormed the invariant, and
--     Bus/Enqueueing, Claiming, Recording, Waiting, Publishing and Runs the theorems.
--     Bus/Meter is bus/meter_store.py, and Bus/Totals its theorem.
--   Schedule: ancalagon/schedule/, what is asked of a snapshot.
--   Supervisor: ancalagon/supervisor/supervisor.py. Supervisor/State is what it keeps and what the
--     world answers it, Supervisor/Ticks a tick, Supervisor/Stale the start and the loop,
--     Supervisor/Invariant its invariant, Starting and Reaping the theorems.
--   Assembly: ancalagon/session_for.py, with what the classes under ancalagon/tools/ declare
--     (Assembly/FileTools, TaskTools), tools/delegate/delegate_tools.py and delegating.py, and the
--     tools that profiles/ supplies. Assembly/Available is the catalogue, Assembly/Permitting
--     `assemble`; Registering, Hooked, Permitted and Answerable hold the theorems.
--   Trace: ancalagon/trace/. Trace/Graph is graph_of.py; Ordering, Starts and Whole the theorems.
--   Transcript: ancalagon/transcript/ and ancalagon/fork.py. Transcript/File is transcript.py and
--     the `load` of history.py, Transcript/Written its theorem.
--   Running: ancalagon/run.py (Running/Root `root_spec`, Running/Run `run`), and the `main` of
--     worker.py and of deterministic/run.py (Running/Workers); Rooted, Shut and Done hold the theorems.
--   Session: ancalagon/session.py, ancalagon/profiles/ and the tool registry. Session/Tools is
--     tools/registry/registry.py and resolved.py, Session/Profiles the turn and the outcomes,
--     Session/Answering profiles/answering.py, Session/Faults what the profiles refuse in a role,
--     Session/Rounds one reply, and Session/Loop the loop, with its
--     theorems in Session/Loop/Spending, Charging and Ending.
--   Tools: ancalagon/workspace/, tools/registry/bind_tool.py and its hooks, tools/delegate/,
--     tools/idle/, children/, answer.py and tools/compare/. Tools/Paging and Context are
--     tools/registry/tool_context.py, Tools/Files tools/files/; Lines, Pages, Reading and Refusing hold
--     their theorems.
--   Configuration: ancalagon/config/ and ancalagon/check_contracts.py. Configuration/Document is a
--     document and a configuration, Configuration/Roles and Loading are from_document.py,
--     Configuration/Contracts is check_contracts.py; Derived, Configured and Sound hold the theorems.
--   The Samples modules hold small concrete inputs and the theorems at them.
--
-- A method that may raise and changes an object is a function from the object to a result and the
-- object (`Exec`): what was changed before an exception stays changed. An exception is its class;
-- its text is not modelled. Times are numbers. Integers that can be negative are ℤ, the others ℕ.
-- A dict is the list of its items in the order of insertion, and a path the list of its parts.
--
-- Parameters stand for what the repository does not hold: the ids that SQLite gives to new rows (each
-- greater than those before it), the clock, the processes and outcome files that the supervisor
-- looks at, the model service, the file system, pydantic's parsing and its sizes of messages,
-- difflib's opcodes, the schemas and runs that a tool's class is bound to, Python's splitting and
-- sorting of texts, the characters at which it breaks lines, SQL's order of texts, the import of
-- the classes and functions that a role names and their signatures, and the functions that format
-- texts. Parts of the repository are parameters of others too: the reading of a configuration, the
-- opening of a worker's transcript and bus and the session that its `main` assembles, and, of
-- check_contracts, what profiles find wrong with a role and what `assemble` raises.
--
-- Fuel and bounds: `depth_from` counts down from MAX_HOPS = 64, as the code counts up to it;
-- `loop` of Session/Loop and `idle_loop` of Supervisor/Stale take fuel for the `while` loops of the
-- code, one for each pass, and return no outcome when it is used up. A pass of an answering agent's
-- session uses a turn, or one of two tries, or is the last, so its fuel is the turns and three more.
-- `run` of Running/Run takes the list of the worlds that its supervisor meets, one for each tick, and
-- returns no outcome when they are used up before it idles. The other functions recur on their lists.
--
-- Not modelled: processes and signals, SQL and its migrations, command lines, TOML, the sandbox,
-- the tools that call an external program, drawing and printing. The delegation
-- tools, and the waking and the loop of the supervisor, are definitions that the results do not
-- speak of.
pub mod Assembly
pub mod Base
pub mod Contracts
pub mod Attempt
pub mod Bus
pub mod Schedule
pub mod Supervisor
pub mod Transcript
pub mod Session
pub mod Running
pub mod Configuration
pub mod Tools
pub mod Trace
