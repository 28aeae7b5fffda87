-- ===== src/Lib.antt =====
-- Code All Remote: a server that runs coding agents and lets paired devices follow and steer them.
--
-- The library models the server's core in Go, in internal/:
--
--   Domain            internal/domain/session.go: sessions, runs, workspaces, approvals, events,
--                     audit entries, devices and the texts of the states (Domain.SessionState and
--                     its siblings).
--   Session           internal/session/manager.go: `validTransitions`, `StateMachine` (Machine) and
--                     `IdempotencyStore`, `RequestValidator` (Idempotency).
--   Storage           internal/storage: the tables of migrations.go and `WithTransaction` of
--                     storage.go (Database), `EventRepository` (Events), `CursorRepository`
--                     (Cursor), `SessionRepository` (Sessions), `WorkspaceRepository` (Workspaces).
--   Approval          internal/approval: `ApprovalStore`, `MemoryStore` of store.go (Store), `DBStore`
--                     of store.go (DbStore), `ApprovalBridge` of approval.go (Bridge, Upkeep) and
--                     its `Stats` (Stats).
--   Lifecycle         internal/lifecycle/manager.go: the recovery of sessions (Recovery) and
--                     `Manager` (Manager).
--   Identity          internal/identity/service.go: pairing, access tokens, revocation (Service).
--   Projection        internal/projection/snapshot.go: the snapshots of sessions (Snapshot).
--   Plugin            internal/plugin/registry.go: the registered plugins (Registry).
--   Protocol          internal/errcat/catalog.go (Errors), internal/protocol/schemas.go (Schemas) and
--                     dispatcher.go (Dispatcher).
--   Workspace         internal/workspace/registry.go: the checks of a path (Paths), `Registry`
--                     (Registry) and its `LoadFromConfig` (Config).
--   Audit             internal/audit/writer.go: the redaction of contexts (Redaction) and `Writer`
--                     (Writer).
--   Ws                internal/ws/client.go: a connected client with its channel and the buffer that it
--                     fills while it is brought up to date (Client); internal/ws/hub.go: the
--                     subscriptions, `Publish` and `replayAndSubscribe` (Hub).
--   Adapter           internal/adapter/claude_parser.go: lines (Parser), buffers (Buffer), plain text
--                     (Recognize); internal/adapter/claude/claude.go: the standard output in `pump`
--                     (Pump).
--   App               internal/app/app.go: `App`, `emitEvent` (State), its reads (Service);
--                     internal/app/session_service.go: `CreateSession` (Service), `StartRun`,
--                     `SubmitPrompt`, `Interrupt` (Runs), `ResolveApproval` (Resolve),
--                     `observeAdapter` with its handlers (Observe), and all of them as requests that
--                     come in any order (Serve).
--   Wrapper           internal/wrapper/wrapper.go: `ProcessWrapper` (Process, Goroutines) and the
--                     goroutines of its `Start`, as acts that come in any order (Goroutines).
--   Prelude           what these share: lists, finite maps, 64-bit integers, results, tests.
--
-- How they interact: the lifecycle manager and the identity service work on the tables through the
-- repositories and through statements of their own; the bridge works on a store that it is given by
-- its interface `ApprovalStore`; the states that recovery writes are compared with the session's
-- state machine. The snapshots, the workspace registry and the audit writer work on the same tables; the
-- hub replays from the journal that it is given and hands events to its clients; the dispatcher calls
-- handlers that are registered with it; `pump` hands what an agent prints to the parser. The service of
-- App holds one database, which its repositories, the approval bridge, the audit writer and the workspace
-- registry share, and the lifecycle manager; what its adapters answer and signal comes from outside. What
-- the service is asked keeps an invariant by rules for the statements and for `do` blocks (App.Kept), which
-- each invariant of the service fills in (`IsKept`, `AllowsMoves`); what one request does to the state of a
-- session has rules of the same kind from one property of the tables to another (App.Near, `Leads`).
--
-- How the code is modelled:
--
--   - An instant or a duration is a number of nanoseconds, the duration of `ExtendExpiry` a signed one.
--     An `int64` is a signed integer whose arithmetic wraps around (`inc64`, `sub64`). Each call reads
--     the clock once, as an argument; that of SQL's `datetime('now')` is an argument of its own.
--   - A Go map is an association list (`Dict`). The order in which Go runs through a map is that
--     of the list.
--   - The body of a method under a mutex is one step. A method that gives the lock up is several:
--     `Decide` is `decide_load` and `decide_apply`, `Start` is `start_begin` and `start_end`,
--     `Shutdown` is `shutdown_begin` and `shutdown_end`, `PairDevice` is `claim` and `enroll`.
--     Interleavings are sequences of such steps.
--   - The database is not code of the repository. A statement is the function on the tables that its
--     SQL text states, with the primary keys, unique columns and references of the migrations, and
--     whether the driver fails at a statement is a schedule (`faults`) that is part of the state.
--     `sound` is a database whose driver does not fail.
--   - An error keeps its innermost cause and not the texts that wrap it. Logging is left out.
--   - Random codes and identifiers, and the answers of an adapter in a recovery, are arguments. So are
--     the texts that `encoding/json` writes and reads (`Codec`, `Decoders`, `WorkspaceCodec`) and the
--     file system that a path is looked up in (`FileSystem`). The payloads in the table of events are
--     texts that `json.Marshal` made, so they can be read back.
--   - The handlers that a dispatcher calls are functions on a state of the application; its authenticator
--     and its idempotency store have no implementation in the package and are parameters.
--   - A method of App is one step, with one reading of the clocks; the handling of one signal is one step
--     too. The session object of an observer is passed from signal to signal, as only the observer
--     writes it. The calls of adapters are recorded (`calls`), and so is what was published (`published`).
--   - A plugin is known by the address of its object, since a shutdown stops the objects that it drained.
--   - The channel of a client is a list. Where a `select` finds two cases ready, which one Go picks is
--     an argument; the writer of a client works between any two steps of the others.
--   - A Go text is a native text where the code compares and cuts whole characters, and the list of its
--     bytes in Adapter, where a text may be cut inside of a character. What Go's tables of Unicode,
--     regular expressions and JSON make of a text is a parameter (`Outside`, `lower`).
--   - What the operating system answers to the wrapper of a process, and what its pipes give, are
--     arguments; an act that panics gives nothing.
--   - There is no fuel: every loop of the modelled code runs over a list.
--
-- Not modelled: that `MemoryStore` shares its pointers with the bridge; the goroutines that call
-- `cleanup` and `checkExpiry` (their calls are steps of a sequence); `Open` and the migrations
-- runner; the drain functions of plugins; how `New` and `Shutdown` of App wire the services together,
-- the waiting for observers in tests, and what other requests do between the statements of one method
-- of App; the WebSocket handler, the processes, standard error and completion signals of the adapters,
-- the HTTP interface, the configuration, the command line and the Android client.
pub mod Prelude
pub mod Domain
pub mod Storage
pub mod Session
pub mod Approval
pub mod Lifecycle
pub mod Projection
pub mod Plugin
pub mod Protocol
pub mod Identity
pub mod Workspace
pub mod Audit
pub mod Adapter
pub mod App
pub mod Wrapper
pub mod Ws
