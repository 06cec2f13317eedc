-- ===== src/Lib.antt =====
-- The control plane that moves a datatype between two Flink job families, all or nothing.
--
-- The program keeps a mock cluster in a directory of JSON files (poc/common/cluster.py), drives
-- it through one actor for each job family, and runs a saga over the actors: pause both families,
-- patch both routing configs, resume both. Each step first pushes a restore intent, and the first
-- failure unwinds the intents, the last pushed first. poc/baseline runs the saga in plain Python,
-- poc/restate and poc/temporal on an engine.
--
-- Prelude    the library names in use, tests on numbers and strings, dicts as association lists
-- Exec       a method that changes an object and may raise; Ensures, the rule of its invariants,
--            Returns, that it does not raise, and Cost, what it adds to a count
-- Domain     poc/common/domain.py
-- Cluster    poc/common/cluster.py: Model has the files, Cluster the operations. Attempt, with
--            its child modules, describes an operation without its code, as one of five endings;
--            WellFormed is the invariant of the files, Frame and Changes say what an operation
--            leaves alone, Contract has the four operations together.
-- Actors     the interface between a saga and its actors: the commands, the contract IsLawful,
--            and in Steps the names of the commands
-- Saga       the saga of poc/baseline/saga.py over any actors. Undo says what a stack of intents
--            restores, Tracking and Forward are the invariant of the try block, Unwinding is the
--            rollback, Validation what an accepted request is. Contract is what a whole run
--            promises, Outcomes that it keeps it, Report what a verdict says of it, Effort what
--            it costs at most, Unhandled which exceptions it passes on, and Completion says when
--            it returns.
-- Baseline   poc/baseline: Actor has retryable and the commands, Saga fills the contract,
--            Completion is about a move that no fault can stop, and Effort counts its attempts.
-- Restate    poc/restate: Steps has the durable steps and what the engine promises of them, Actor
--            the handlers with the cached state, Saga the workflow and its terminal errors,
--            Envelope the search for a verdict in a text, with Search on what it finds, First on
--            the verdict that stands first, and Decoding on the responses of the server. Reads
--            and Contract are about single handlers, Lawful fills the contract, and Verdicts is
--            what a client can rely on.
-- Temporal   poc/temporal: Engine is the service as a parameter, with what its documentation says
--            of retried activities and of updates with an id. Activities, Actor, Proxy and Saga
--            are the four files of the code, and Ids the update ids of the saga. Once is about a
--            command that the proxy sends again, with RollOver on what a roll-over of the actor
--            makes the service forget, Executions, Handlers and Serving about single handlers,
--            Lawful fills the contract, Verdicts is what a client can rely on, Effort counts the
--            attempts of a run, and Coherence is about the state that an actor remembers. Scripts
--            cuts the handlers at each await, with Whole on what they come to, and Locking is one
--            actor as the worker interleaves it, with the queue of those that wait for its lock:
--            Serial is about the lock, and Coherence about the state that it remembers while
--            others write, with Scripts, System and Fleet for the handlers, one actor and all.
-- Scenarios  poc/common/scenarios.py, and the runs whose logs are recorded under poc/docs
-- Cli        poc/cli.py: a scenario by its name, its directory, and the exit code; Failures looks
--            for the verdict in a chain of exceptions, and Extraction says which it finds;
--            Engines is the run of a scenario on each engine
-- Evidence   poc/run_poc_scenarios.py: what the runs have left, and the table that compares it,
--            with Matching on when the table says that they agree, and Independence on what one
--            run leaves to the next
-- Tests      the theorems at concrete inputs
--
-- A file is modelled as what its JSON decodes to, and a file that may be missing as an option.
-- The dicts keep one entry for a key, found in any order. A raise keeps what was written before
-- it, so an error comes with the state. Generations and counters are Python integers, hence
-- natural numbers without a bound. The loop of retryable is structural recursion on the rounds
-- left, so no model runs on fuel. The saga's two-family dicts are records read with the later key
-- winning.
--
-- Restate is a parameter: run_typed runs a step by attempts, each from the cluster that the one
-- before left, and passes on a return or gives up with a terminal error. A call of an object's
-- handler runs it alone, to its end.
--
-- Temporal is a parameter: execute_activity makes attempts at an activity until its policy has it
-- stop, where an attempt may never start and the answer of one may be lost, and execute_update
-- runs a handler for a new id and gives the recorded outcome for a known one. A command is fresh,
-- in the contract IsLawful, as long as no update with its id has finished. What the service knows
-- of finished updates, World.updates, is what it knows in the present run of each actor: Temporal
-- looks an update id up in one run of a workflow, and continue_as_new starts another. For the
-- saga, a handler is one step of the world, as the lock has it; Temporal/Locking says why this is
-- so, by handlers that stop at each await, where an activity with its attempts is one step.
-- Attempts that go on for ever, under a policy without a limit, are the value Failure.endless.
--
-- The text that pydantic writes and reads and the JSON parser are parameters of the search for a
-- verdict; bytes in place of a text are given by what their UTF-8 decodes to, or by its failure.
-- An exception is followed by its causes in a finite chain. The JSON texts and the digest of the
-- report are parameters too.
--
-- Not modelled: a roll-over of an actor in the course of a saga, other than between the attempts
-- at one command in Temporal/Once/RollOver; a worker that crashes in the middle of an activity,
-- the start-up and connection code of the engines, the parsing of arguments, printing, the style
-- sheet and the script of the report, and the vendored helper temporal_app.py.
pub mod Prelude
pub mod Exec
pub mod Domain
pub mod Cluster
pub mod Actors
pub mod Saga
pub mod Baseline
pub mod Restate
pub mod Temporal
pub mod Scenarios
pub mod Cli
pub mod Evidence
mod Tests
