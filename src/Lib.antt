-- ===== src/Lib.antt =====
-- Hera, an agent that runs as three processes. The Communicator (src/communicator) talks to the
-- user and spawns two children, the Executor (src/executor), which runs the model's turns and
-- their tools, and the Supervisor (src/supervisor), which watches the Executor. They exchange
-- envelopes over IPC channels (src/process). Whatever an Executor does to the world passes the
-- gate of the harness (src/harness), which asks a plug: allow, block, ask the user, or unavailable.
-- A session is kept as a log of events, which is projected to a conversation on resume
-- (src/session).
--
-- Shared: names that all modules use, lists, dictionaries and texts. A JavaScript string is a list
--   of its UTF-16 code units (Text), a `Map` with text keys an association list (Dict). Names of
--   fields and of tools are native strings.
--
-- Harness/Descriptor: EffectDescriptor of src/harness/descriptor.ts. What is serialised for the
--   hash is one text, which the model lets change freely after the freeze; simpleHash is FNV-1a with
--   its 32-bit wrap-around.
-- Harness/Gate: Gate of src/harness/gate.ts. Each `await` of execute and egress is a phase; a step
--   is what happens between two of them: a start, the plug's answer, the user's decision, a
--   resumption, the end of a dispatch, a halt, a collection. Any sequence of events is a run. The
--   plug is a record of operations on a state of its own, the interface of
--   src/harness/provider.ts; halt_gate wakes the waiting calls as the code's resolvers do.
--   Children: Invariant (the maps fit the phases), Safety (what was dispatched), Halt, Progress.
-- Harness/Plugs: the plugs of src/harness/plugs. KeyShapes is scanKeyShapes, a regular expression
--   written out as a scanner. CommandLine is tokenize, normalizeFirstToken and splitStatements, each
--   loop a fold over the characters with its variables in a record. Paths is resolveRealPath,
--   insideWorkspace, expandTilde, isProtected and matchAllowlist over a Host, the operating system
--   with node:path and Bun.Glob. Denylist is matchDenylist and isShellWrapper. LocalGuards is the
--   request and resolve of LocalGuardsPlug; its child Factory is createPlug, with the plug as a
--   provider of the gate.
-- Harness/Approval: gate and local guards composed.
-- Supervisor/Watchdog: StallWatchdog of src/supervisor/watchdog.ts, with the time as an argument and
--   the calls of `actions` as a list. Children: Stalls (single ticks), Budget (whole turns).
--   PhaseSince is parsePhaseSince of the same file.
-- Supervisor/Memory: MemoryStore of src/supervisor/memory.ts over the lines of its two files, with the
--   loop of retrieveMemories. Children: Replay, Selection.
-- Supervisor/Review, Supervisor/ReviewText, Supervisor/Reviewer: ReviewTriggers, parseReviewText with
--   extractUserRequest, and Reviewer, of src/supervisor/review.ts. Children: Signals (with the runs), Serving.
-- Process/Lifecycle: RestartBudget, decideOnExit and shutdownAll of src/process/lifecycle.ts. What a
--   child answers is part of its target; which pids are gone, and which a signal ends, are functions.
-- Process/Envelope, Process/Inbound, Process/Channel: the envelope of src/process/envelope.ts,
--   InboundQueue and IpcChannel of src/process/ipc.ts. Messages that come in while one is handled
--   are a function of that message; promises are numbers whose ends are listed as outputs.
-- Executor/Injection: neutralizeDelimiter and renderToolResult of src/executor/injection.ts.
-- Executor/Mailbox: InjectMailbox and buildUserMessage of the same file. Child: Conservation.
-- Executor/Compaction: the estimates and the choice of what is kept, of src/executor/compaction.ts.
-- Executor/Coalescer, Executor/SlashCommand: DeltaCoalescer, expandSlashCommand and levenshtein of
--   src/executor/agent.ts. Child of the latter: Distance.
-- Executor/Agent: Agent of src/executor/agent.ts. The place where runTurn awaits is a value; an input
--   ends the await or is a message. State is the data; Turn is loop between its awaits, with the size
--   check and finish; Rounds is what follows the model's response, a compaction and the
--   acknowledgements; Tools is executeTool; Inbound is onAnswer, onContinue, onCancel and onResume.
--   Children for proofs: Orderly, Stopped, Gaps.
-- Tools/Edit: assertReadFresh, applyReplacement, edit and multiEdit of src/tools/edit.ts, up to the
--   text that is written.
-- Provider/Retry: withRetries of src/providers/retry.ts; what the nth call comes to is a function.
-- Cli/Args: parseArgs of src/args.ts. Child: Items.
-- Cli/PromptQueue: parsePromptQueueFile of src/cli/prompt_queue.ts. Its nested loops over the lines
--   are one recursion with the place in the loops as its state.
-- Communicator: src/communicator. State is CommState of state.ts; Store holds the data of
--   Communicator of core.ts with ownError, appendAndNotify, copyToSupervisor and relayTo; Spawning is
--   spawnAndHello, respawn, sendPrompt and onChildExit, where a promise that respawn awaits is the
--   stage of the process and its continuation a value (Then); Messages is route with onChildEvent and
--   trackEvent, and checkSupervisorSilence; Core has the calls of the frontend and the machine over
--   all inputs. A child is named by its role and epoch. What is sent, shown and killed is a trace.
--   Children of Core: Quiet (what most steps leave alone), Log, Backed, Attended, Restarts, Halted,
--   Revived.
-- Session/Records, Session/Projection, Session/Usage: projectEvents and usageByRole of
--   src/session/projection.ts. Messages are shared objects that later events change, so the model
--   keeps a store and names them by place.
--
-- Fuel: resolveRealPath climbs at most as often as the path is long, and is given one more; drain is
-- given a number of rounds, and a lane of that many messages is emptied; withRetries has one more than
-- its retries; dropOldToolResults has the number of messages, of which each round takes one away.
-- Other loops are structural.
--
-- Not modelled: the providers' adapters, the tools' file, process and network access, the terminal
-- and the ACP server, the configuration schemas and the payload schemas (zod), reading and writing
-- of files, JSON, timers and the clock, debug lines and counters that are only shown. White space and
-- letter case are those of ASCII, with the no-break space. Nor are these failures: an append to the
-- session file that throws after it has written, a plug's request or a notice of a pending call that
-- rejects, a frontend that submits a prompt while it is told of the end of a turn, and a memory file
-- whose last line was cut off before its newline. Still to come:
-- the Supervisor around the parts above, and the retention and extraction of memories.
pub mod Shared
pub mod Harness
pub mod Supervisor
pub mod Process
pub mod Executor
pub mod Session
pub mod Provider
pub mod Cli
pub mod Tools
pub mod Communicator
