-- ===== src/Lib.antt =====
-- A model of iLL, an integration test language, and of the interpreter that validates and runs its
-- test files (the crates crates/ill-core and crates/ill).
--
-- A test file declares actors and holds `as` blocks of commands, lets and assertions. `lower` makes
-- a syntax tree of its text. `validate` checks that statically, with a mode for each actor; the
-- harness evaluates it, runs the commands on live actors, stops at the first failure, and tears every
-- actor down.
--
-- Which file models what:
--   Ast: the syntax tree (crates/ill-core/src/ast.rs).
--   Lower: from a text to the syntax tree (crates/ill-core/src/lower.rs). Normalize: `normalize`;
--     Escape: `unescape`; Tree: the nodes of tree-sitter, and `Log`, what a method of `LowerCtx`
--     returns and pushes; Reports: `collect_errors`; Expr, Statement, Declaration: the methods
--     `lower_…` by what they lower.
--   Value, Errors: values, their static types and equality, runtime errors
--     (runtime/value.rs and runtime/mod.rs of crates/ill-core/src).
--   Squiggle: the tagged literals with the hex decoder and UTF-8 (runtime/squiggle).
--   Eval: `eval`, `index_into` and `concat_fragments` (runtime/eval.rs, runtime/squiggle/mod.rs).
--   Assertion: `eval_assert` (runtime/assert.rs).
--   Actor: the static side of the actor types and the registry (actor_type, registry.rs).
--   Diagnostic, Validate: the validator (diagnostic.rs, validate.rs). A check that pushes diagnostics
--     returns those that it pushes; the local variables of `check_as_block` are `BlockState`.
--   Runtime: the interface of the actors at run time (runtime/mod.rs, actor_type/mod.rs). Waiting:
--     actors whose operations may not come to an end.
--   Harness: from the lowered file to the report (runtime/harness.rs, runtime/report.rs).
--   Exec: the `exec` actor at run time (actor_type/exec/runtime.rs), on Unix. `Os` is what it calls.
--   Container: the `container` actor at run time (actor_type/container/runtime.rs). Daemon: what it
--     calls, and the pieces of the request that it builds.
--   Pg: the `pg_client` actor at run time (actor_type/pg_client/runtime.rs). Server: what it calls, the
--     configuration and the classes of errors; Rows: the values of a result (convert.rs).
--   Retry: the loop in which `pg_client` and `mqtt_client` try to connect.
--   Mqtt: the `mqtt_client` actor at run time (actor_type/mqtt_client/runtime.rs): its event loop. Acks
--     and Connect: what acknowledgements and errors are called; Config: the options of a connection;
--     Session: what it calls, and connecting; Requests: `subscribe` and `publish`; Receive: what the
--     receiving commands give; Instance: the dispatch by mode.
--   Outcome: the shapes that `define_outcome!` declares (actor_type/outcome.rs).
--   Report: the failure of a test on the terminal (report_format.rs); Render: diagnostics (render.rs).
--   Cli: the commands `ill check` and `ill test` (crates/ill/src/main.rs). Arguments: `--arg` entries;
--     Files: the files that the paths name; Check: `check_files` and `run_check`.
--   Args: the `args_actor` at run time (actor_type/args_actor/runtime.rs).
--   Members: the declared variables of an actor (runtime/members.rs).
--   Prelude: shared names; Tests: example runs.
--
-- State is passed explicitly: a live actor is an instance that an operation replaces, and what lies
-- outside of the process is a `World` that is threaded through. An `IndexMap` is its entries in
-- insertion order, an `f64` its bit pattern, an `i64` an integer, a byte a number below 256. A
-- duration of `pg_client` and `mqtt_client` is a number of nanoseconds. A panic is an outcome where the code can panic.
--
-- Functions are structurally recursive but for three that run on fuel: printing a number, which has
-- fewer digits than it is large; `lower_expression`, whose fuel is the number of nodes of the tree,
-- since each call goes to a node below; and the loop of `connect` in `Retry`, which pauses for 200
-- milliseconds or what is left of its budget between two attempts, and whose fuel is two more than
-- the number of such pauses in the budget.
--
-- Parameters: the regular expressions of the crate `regex`, the actors at run time for the harness,
-- `shlex`, `tokio` and the operating system for `exec`, `testcontainers` and the docker daemon for
-- `container`, `tokio_postgres`, the server and the clock for `pg_client`, `rumqttc`, the broker and
-- the clock for `mqtt_client`, the tree that tree-sitter makes of a text for `lower`, the file system,
-- the order of paths and what `set_cli_args` does to the slot of the arguments for the command line,
-- `emit` of codespan_reporting for rendering, and how texts are put in quotes and floats are printed.
-- The harness takes the result of `lower` as an argument. An `i64` has no range in the model but
-- where it is read from a text.
--
-- The event loop of `mqtt_client` runs as a task of its own. In the model its state is a part of the
-- connection, and it goes on when a command waits, with the packets that the broker sends meanwhile.
-- While it waits for room in a full inbox it polls nothing. A command that waits for ever has no
-- result, and neither has a query without a timeout that the server never answers. The harness runs
-- actors whose operations return; `Runtime.Waiting` makes such actors of ones that may wait for ever or
-- panic, over worlds that may not be reached.
--
-- The file system of the command line is that at the start: both commands read all their files before
-- the first test runs. Where a file is read later, that is a function of the world.
--
-- Not modelled: the generated grammar, the editor extension and the helpers of the unit tests; the
-- layout of the snippets that codespan_reporting writes, and the parser of the command line (clap).
pub mod Prelude
pub mod Ast
pub mod Value
pub mod Errors
pub mod Squiggle
pub mod Eval
pub mod Assertion
pub mod Actor
pub mod Diagnostic
pub mod Validate
pub mod Runtime
pub mod Retry
pub mod Harness
pub mod Lower
pub mod Exec
pub mod Container
pub mod Pg
pub mod Mqtt
pub mod Args
pub mod Cli
pub mod Report
pub mod Outcome
pub mod Members
pub mod Tests
