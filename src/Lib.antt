-- ===== src/Lib.antt =====
-- A verification library for blades, a framework for agents in Go. It models the framework's own
-- logic as functions and proves what makes each part correct.
--
-- The program's parts and how they interact. A graph (graph/) is built from nodes and edges,
-- compiled into an executor after four checks, and run by a task, whose goroutines share one mutex.
-- An agent (agent.go) asks a model in a loop, runs the tools that the answer calls for, and stores
-- what it hears in a session (session.go). A session may carry a compressor (context/), which
-- shortens the history before it goes to the model. Recipes (recipe/) are specifications of agents,
-- which are checked before agents are built from them. Flows (flow/) are agents that run other
-- agents in order, in a loop, by choice or at once. The command line program (cmd/blades) keeps
-- sessions in files, and runs scheduled jobs. Messages (message.go) pass between all of these.
--
-- Which module models what:
--
-- Common: tests on numbers, Go's maps as association lists (in the order of a range, which the
-- theorems leave open), functional options, and results with an error.
--
-- Message: message.go. Random identifiers are arguments.
--
-- Context: Session is session.go; Counter is internal/counter/counter.go; Window is
-- context/window/window.go; Summary is context/summary/summary.go, with Compress as compress and
-- its loop as compress_loop. A compressor that stores its progress in the session returns the
-- session.
--
-- Graph: Types and Build are graph/state.go and the builder methods of graph/graph.go; Check
-- (validate, validateStructure), Cycle (ensureAcyclic) and Reach (ensureReachable) are the checks
-- of Compile; Compile holds Compile and NewExecutor of graph/executor.go. Graph.Task is
-- graph/task.go: State has the fields of Task, Satisfy has satisfy and processOutgoing, Execute has
-- executeNode and nodeDone, Schedule has scheduleNext, checkTermination and emitCheckpointIfIdle,
-- Restore has restoreCheckpoint. Each section under the mutex is one function. Run has the
-- interleavings: a step is a round of the main loop, or the next section of any goroutine.
--
-- Agent: Tools is handleTools and executeTools of agent.go; Loop is handle; New has the options,
-- NewAgent, prepareInvocation and Run. A generator is a function on the state of a run, with the
-- list of what it has yielded; the consumer, which may stop it, is a parameter, and so are the
-- model, whose state may change, and the tools.
--
-- Recipe: Spec is recipe/spec.go; Parameters and Validate are recipe/validate.go, with
-- resolveParams of recipe/template.go; Context is buildContextCompressor of recipe/context.go;
-- Build is recipe/builder.go with recipe/prompt.go. Correct holds the descriptions of what the
-- checks accept.
--
-- Flow: the agents of flow/ that run other agents, which are parameters. Sequential, Loop and
-- Routing are the files of these names; Routed describes what Routing does from the root agent's
-- events; Generator has the protocol that a generator keeps with its consumer. Parallel is
-- parallel.go as a step relation: a step is the send of a goroutine or a receive of the consumer.
-- Middleware is middleware.go with middleware/, and Runner is runner.go with the agent as a tool of
-- tool.go.
--
-- Cli: cmd/blades/internal. Session and Persistence are session/session.go; Files has what the
-- program uses of the file system, as parameters. Cron is cron/service.go and cron/types.go:
-- Sections has what each critical section does with the list of jobs, Store is loadLocked and
-- saveLocked, Service the operations on jobs, Ticks the runs of jobs, with the start and the watch
-- of the service, and Handler what a job does. Reload has the sections with the file, as a relation
-- on the files and the service. A time is a number of nanoseconds.
--
-- Stream: the combinators of stream/stream.go, against functions on lists in Laws.
--
-- Fuel and bounds. The depth-first search of ensureAcyclic has one unit of fuel more than there are
-- sources of edges, since a call below another stands on a new source. The breadth-first search has
-- two more than there are edges, since every round takes a name from the queue, and a node's edges
-- enter it once. Compress has one round more than there are messages, since a round advances the
-- offset by at least one if the batch size is positive; a batch size may be negative, and then a
-- fold panics. That this is enough is proved where the results say that something ends. The loop of
-- the agent goes by the rounds that maxIterations leaves. Counts and sizes are natural numbers
-- without a bound; no count of the code comes near the bounds of its machine integers but the
-- interval of a scheduled job, whose number of nanoseconds wraps around. Go's context argument is
-- left out: cancellation is an error that a handler, a tool or a model returns.
--
-- Not modelled: the providers in contrib/, which adapt the interfaces of third parties; the rest of
-- the command line programs in cmd/, which is input and output, and a vendored copy of this library
-- there; the examples; skills/, evaluator/, memory/ and Merge of stream/; the deep agent of flow/;
-- the loading of recipes from files. Of agent.go, skills and schemas are not modelled. The errors
-- of a session's Append are a parameter, as the field refuses of an invocation. Negative budgets,
-- numbers of recent messages and stored offsets of the summary compressor are left out. The model,
-- the tools, the handlers of a graph's nodes, the checkpointer, the token counter and the
-- summarizer are parameters everywhere.
pub mod Common
pub mod Message
pub mod Context
pub mod Graph
pub mod Recipe
pub mod Agent
pub mod Flow
pub mod Cli
pub mod Stream
