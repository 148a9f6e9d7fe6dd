-- ===== src/Lib.antt =====
-- A model of the core of rice-factor, the tool that drives a project from requirements to code
-- through artifacts that a human approves. The parts that are modelled decide what a command may do
-- and what a pipeline reports; the adapters around them (language models, refactoring tools, editors,
-- the command line) are not modelled.
--
-- How the parts interact. A command asks the phase service whether the project has reached its phase;
-- the phase service lists the project's artifacts and their statuses, which the artifact service keeps
-- in files and moves from draft to approved to locked. Locking the test plan writes
-- hashes of the test files, which the lock manager and the safety enforcer check later. The pipeline
-- of continuous integration runs its stages over the same artifacts and stops or goes on. The rate
-- limiter stands between several threads and a provider of a language model. The override scope
-- manager records where a user has gone past a check, within limits, and flags these places for
-- continuous integration until they are reconciled. The lifecycle orchestrator runs the phases of a
-- project by handlers and keeps a state to resume from. The extractor takes the JSON object out of what
-- a language model answers, before it becomes an artifact. The diff service keeps the diffs of an
-- implementation until they are reviewed and applied. The lifecycle service says which artifacts are
-- due for review, and whether one of them blocks work. The schema version manager finds the migrations
-- that bring an artifact of an older schema to the current version, and the artifact cache keeps
-- artifacts that were read in memory, up to a number and for a time.
--
-- Files and code.
--   Prelude: the library's names, Boolean tests, lists, Python's dict as an association list in
--     insertion order (get, put, del), equality as an instance, stable sorting, and tables of records
--     that a JSON file keeps, text as code points.
--   Artifacts: types and statuses of artifacts (schemas/artifact.schema.json).
--   Ci: rice_factor/domain/ci/{models,pipeline,failure_codes}.py. Models holds the results,
--     Pipeline CIPipeline.run with the validators as functions that return a result or raise, Order and
--     FailFast the proofs.
--   Phase: rice_factor/domain/services/phase_service.py. Service holds the phases, get_current_phase
--     and can_execute; a project is a record of what the service reads from it. Gate and Progress hold
--     the proofs.
--   Store: rice_factor/adapters/storage/{filesystem,approvals,registry}.py and
--     rice_factor/domain/services/artifact_service.py. Storage, Approvals, Registry and Service hold
--     their classes; files are a dictionary from paths to texts. Envelope is what they use of
--     ArtifactEnvelope and of the validator: domain/artifacts is not in the repository, so it is a
--     parameter with laws. View and Contract are the abstract view of the service, Load, Moves and
--     Refinement relate the two; Writes, Locked, Recorded, Trackers, Dependencies and Gating (with the
--     phase service on top) hold the other proofs. Sketch is an instance of the parameter.
--   Lock: rice_factor/adapters/storage/lock_manager.py (Manager) and
--     rice_factor/domain/services/safety_enforcer.py: its lock check (Enforcer), the files of a diff
--     (Authorization) and the checks of artifacts and phases (Prerequisites). The tree of files is a
--     function from paths to contents; the hash and the ISO format of dates are parameters. Locking,
--     Tampering, Agreement and Sections hold the proofs.
--   Rate: rice_factor/domain/services/rate_limiter.py. Bucket is TokenBucket, Limiter the state of
--     RateLimiter with configure, check, release and reset, Acquire the loop of acquire, Steps the
--     critical sections of acquire, release and check as steps, Sections all of them, Config the limits as they are loaded, exported and read.
--     The other files hold proofs. The clock is read in
--     nanoseconds and amounts are counted in parts of a token, 60 * 10^9 to a token, so that a rate in
--     tokens per minute is a whole number of parts in each nanosecond.
--   Overrides: rice_factor/domain/services/override_scope_manager.py. Records and Files hold the state
--     and its JSON files, Manager the operations that change it, Paths and Report those that read it.
--     Limits, Saved, Reload, Coverage and Flags hold the proofs. Times are microseconds.
--   Orchestrator: rice_factor/domain/services/lifecycle_orchestrator.py. Phases and Service hold the
--     phases, the state and LifecycleOrchestrator; handlers and hooks are functions on a world that
--     stands for all they read and change. Files is the state and the dictionary that its file holds.
--     Run, Twice, Progress and Resume hold the proofs.
--   Extract: rice_factor/domain/services/json_extractor.py. Scanner holds the loops over characters,
--     Extractor the ways of `extract`, Grammar a grammar of objects; Matching, Closing, Objects, Single
--     and Whole hold the proofs. A text is the list of its code points; what the pattern for code fences
--     captures is a parameter.
--   Diffs: rice_factor/domain/services/diff_service.py. Service holds DiffService over the directory
--     audit/diffs; Index (the index as a map), Recent and Files hold the proofs. The time stamp of file
--     names is a parameter.
--   Review: rice_factor/domain/models/lifecycle.py (Policy) and
--     rice_factor/domain/services/lifecycle_service.py (Service). Config is LifecycleConfig with its YAML
--     file, Prompts the messages and actions, Recording the recording of a review over a store that is a
--     parameter; these three hold their proofs, and Blocking those on what blocks work. Ages and drifts
--     are counted in parts of a month and of a percent.
--   Schema: rice_factor/domain/services/schema_version_manager.py. Version is SchemaVersion, Manager the
--     state of SchemaVersionManager and its registrations, Path the search for a path, Migrate and
--     Validate the methods of those names. Path/Chains, Path/Levels and Path/Shortest, the children of
--     Manager, Migrate and Validate, and Version/RoundTrip hold the proofs. A migration function is a
--     function that returns new data or raises.
--   Cache: rice_factor/adapters/cache/artifact_cache.py, the cache in memory. Lifetimes, Lookups,
--     Valid, Fresh, Reads, Order and Eviction hold the proofs. The hash is a parameter; times and times to live are
--     natural numbers.
--
-- Bounds and fuel. Counts, times and amounts are unbounded natural numbers, as Python's integers are;
-- a subtraction that Python lets go below zero is written out where it matters (the age of an override
-- from the future), and elsewhere its operands are in order. Two loops have fuel: the search for a path
-- of migrations, with the number of migrations and two, and the digits of a number n, with n and one;
-- both are shown to be enough. The loop of
-- `acquire` waits for the clock: it runs over the readings of the clock, one for each round, and a
-- call with a timeout is shown to end once a reading reaches the timeout.
--
-- Domain. JSON files hold values of the types that the code writes, with keys that may be missing; JSON
-- of another shape, or a null where the code writes none, is outside of the model, except where a file
-- says otherwise. The directories of artifacts hold nothing but files named *.json. The components of a
-- schema version are natural numbers. An identifier stands for its text and is taken to be a UUID where
-- the code reads one.
--
-- Not modelled. Texts of messages where nothing is decided by them, logging, and the rendering of
-- results as dictionaries; files other than those named; the floats of the rate limiter are exact
-- numbers, and so are ages and drifts; a critical section reads the clock once. Handlers, validators,
-- hashes, the ISO format of dates, the pattern for code fences and the classes of characters are
-- parameters, since the code takes them from its callers or from Python's library. What wraps language
-- models, refactoring tools, parsers and editors, and what scans source text by regular expressions, is
-- left out.
mod Prelude
pub mod Artifacts
pub mod Ci
pub mod Phase
pub mod Lock
pub mod Rate
pub mod Overrides
pub mod Orchestrator
pub mod Store
pub mod Extract
pub mod Diffs
pub mod Review
pub mod Schema
pub mod Cache
