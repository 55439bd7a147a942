-- ===== src/Lib.antt =====
-- Clawside: a protocol for handing work from one agent to another, and a sender of Telegram messages.
--
-- The two parts that hold its core logic are modelled here.
--
-- The orchestrator (internal/orchestrator) keeps handoffs. A handoff is a record with a state, a set
-- of flags and the actors that take part; an event is accepted or rejected by a state machine, and a
-- workflow's status is projected from its handoffs.
--   Orchestrator/Types       types.go: Handoff, EventRecord, Workflow and the enumerations
--   Orchestrator/Actors      ownership.go, and the validators of actors in state_machine.go
--   Orchestrator/Completion  state_machine.go: prerequisites, gates by state, hydrateFlags
--   Orchestrator/Machine     state_machine.go: NewStateMachine and Apply, split into the switch
--                            (`transition`) and what follows it (`settle`); its children prove the
--                            invariant, the diagram, what lists of events keep, reviews, and the
--                            routes by which a handoff is completed (Progress, Finish)
--   Orchestrator/Replay      state_machine.go: Replay, which sorts the stored events and applies them
--   Orchestrator/Projection  workflow_projection.go: ProjectWorkflow
-- The service around the machine keeps handoffs, their events and what is observed about them in the
-- tables of SQLite.
--   Orchestrator/Records     types.go, ownership.go, signals.go: what is kept beside the handoffs
--   Orchestrator/Table       a table and the SQL statements that store.go runs on one
--   Orchestrator/Action      the service's state and its calls with errors and transactions; Rules,
--                            Inversion and Drawing reason about calls without running them
--   Orchestrator/Store       store.go: the statements, and in Lists the queries
--   Orchestrator/Events      store.go, service.go: RecordAcceptedEvent, RecordRejectedEvent,
--                            RecordAuthoritativeEvent, BackfillEvent
--   Orchestrator/Service     service.go and the files beside it. Related: dependencies; Create:
--                            CreateHandoff, CreateHandoffIdempotent, AppendHandoff; Repair:
--                            InvalidateEvent, ReopenHandoff, and repair.go; Signals:
--                            RecordObservedSignal, signals.go and watchdog.go; Protocol: protocol.go
--                            and protocol_service.go; Status: UpdateOwnership, UpdateWatch and
--                            WorkflowStatus; Calls: the histories of calls that the invariants are
--                            stated for
--
-- The sender (the root package) accepts messages over HTTP, keeps them as jobs in a table of SQLite,
-- and delivers them by a worker.
--   Sender/Timestamps        store.go: formatTimestamp, as the texts compare in SQL
--   Sender/Store             store.go: the statements on the table; Ops makes a statement a step, and
--                            the other children prove what claims, settlements and histories do
--   Sender/RuntimeState      runtime_state.go
--   Sender/Worker            worker.go, retry_policy.go, telegram_error_classifier.go; Outcome is one
--                            round, Arrivals and Loop are the loop beside arriving messages
--   Sender/Submit            send_service.go, service_errors.go, and allowlisted of http_handler.go
--   Sender/Queries           job_query_service.go, with ListJobs and GetStats of store.go
--   Sender/Requests          http_handler.go: ServeHTTP and its handlers
-- The service and the worker meet only in the table, so every interleaving of them is a list of
-- statements (`Op`): SQLite runs one at a time over one open connection.
--
-- Common passes on the names of the libraries and holds lists, Boolean tests and integers. The
-- modules named Tests apply the theorems to concrete data.
--
-- How the code is read. An error is a value; a nil pointer and a column that is NULL are `none`; a
-- text with named values is a data type with `other` for any further text. Times are nanoseconds
-- since Go's zero time; a duration that may be negative is an integer. A state version is an int64
-- as its bit pattern and wraps around at 2 ^ 64. A map is an association list. All loops are structural
-- recursion over lists, so no fuel is needed; the worker's loop runs over the list of the times at
-- which it reads the clock, with what others do to the table in between. The orchestrator's clock and
-- `NewID` are any functions of the number of readings before; a transaction that fails puts the store
-- back, and its calls run one after the other. An HTTP request runs with no other statement beside it
-- (`submit`); `submit_amid` and `accept` are the submission that others run beside.
--
-- Parameters: the answers of Telegram (`send`), `strings.ToLower` (`to_lower`), the redaction of
-- tokens by a regular expression (`redact`), the parsers of decimal numbers (`parse_int`), the
-- decoded body of a request, the result of the store's ping, the statements that others run while a
-- round of the worker sends or a submission is between its lookup and its insertion, and the
-- orchestrator's clock and ids.
--
-- Foreign keys are checked where an event is written to the audit, the one place where the ids may be
-- those of the caller; elsewhere they name rows that the same call has read or written. The histories
-- of the service are lists of fourteen calls; a dispatch, which commits before its adapter answers, is
-- not one of them.
--
-- Not modelled: I/O errors of SQLite, cancelled contexts, locks, logging, JSON and HTTP; and these
-- parts: of the orchestrator the registration of agents, the lists of next and blocked work, the
-- dispatch through an adapter, and the templates; the A2A delivery and server, the tool server, the
-- swarm driver, the bridges to OpenClaw, the commands and the scripts.
pub mod Common
pub mod Orchestrator
pub mod Sender
