-- ===== src/Lib.antt =====
-- The verification library of ObserveX, a multi-tenant pipeline for observability signals in Go.
--
-- A signal enters the processing engine (pkg/engine/engine.go), goes through three stages that decode,
-- validate and enrich it, is offered to the mailbox of its tenant's actor (pkg/actor/actor.go), which the
-- supervisor (pkg/supervisor/supervisor.go) starts, restarts and quarantines, and is written to the
-- write-ahead log (pkg/wal/wal.go). Beside this path stand the planner of the query language ObserveQL
-- (pkg/observeql), the translations of PromQL and LogQL (pkg/promql, pkg/logql) that the query engine
-- serves, the burn rates of SLOs (pkg/sloburn), the spillover of full mailboxes (pkg/spillover), the
-- audit log (pkg/auditlog), the scopes of API keys (pkg/auth/scopes.go) and the retention of a tenant's data
-- (pkg/retention/retention.go).
--
-- Which file models which part:
--   * Wal: pkg/wal/wal.go. Wal/Bytes has the little-endian words and the CRC, Wal/Entry the encoding of an
--     entry, Wal/Scan scanValidOffset and walkSegment, Wal/State the segment files and the operations
--     (Write, Sync, Close, Walk, rotate, openSegment, NewWAL). `Holds w s u` says that an open log holds
--     the synced entries `s` and then the pending ones `u`. A segment file keeps what the page cache
--     holds and what the last fsync left; a crash leaves a mixture of the two, as `Leaves` of Wal/Crash says. Each
--     system call may fail, as the record Io says. Wal/Directory has the names of the segments. The
--     directory holds the files of the log and no others.
--   * Signal, Actor: pkg/signal/signal.go and pkg/actor/actor.go with Engine.Process of pkg/cep/cep.go.
--     The channel is a list with a capacity; the rules are a parameter. The goroutine receives a signal in
--     one step and processes it in another.
--   * Cep: the sliding window of pkg/cep/cep.go, and in Cep/Rules and Latency its two rules, each
--     Evaluate at a time that is an argument. An epoch is the number of bucket sizes since 1970.
--   * Supervisor: pkg/supervisor/supervisor.go. The map of actors is an association list, the goroutines
--     that wait to restart an actor are a list of pending restarts, and the interleavings are the steps
--     of Supervisor/Reach.
--   * Engine: pkg/engine/engine.go, over the supervisor and the log. Whether a payload is JSON and the
--     decision of the sampler are parameters.
--   * ObserveQl: pkg/observeql/ast.go and planner.go. The tree has a constructor for each alternative of
--     a node; the rendering returns the SQL text with the parameters, an error, or a panic.
--   * Auth: pkg/auth/scopes.go; Auth/Keys is the key validators and the middleware of pkg/auth/auth.go.
--     Retention: pkg/retention/retention.go, over a connection that executes a statement or fails.
--   * PromQl: pkg/promql. PromQl/Lexer is lex.go, PromQl/Selectors and Parser are parser.go over
--     the trees of PromQl/Ast, PromQl/Sql and Translate are translate.go and promql.go; PromQl/Guard
--     is runProm of services/query-engine/cmd/shims.go. A run gives a value, an error, or is out of
--     fuel.
--   * LogQl: pkg/logql/logql.go, with the runs of PromQl/Run.
--   * Sloburn: pkg/sloburn/sloburn.go. A division of times rounds towards zero, as in the source.
--   * Spillover: pkg/spillover/spillover.go, over the answers of NATS.
--   * AuditLog: the buffered exporter of pkg/auditlog/auditlog.go. The goroutine is a state of its own; the
--     interleavings with the calls of Append and Close are the steps of `Reach`, and each call of the
--     exporter inside may fail.
--   * Prelude: the names and lemmas that the components share.
--
-- Bounds and fuel: the loops over a segment run on fuel, the length of the data, which is enough since
-- each entry takes up at least its header. Words of 32 and 64 bits wrap around as in the source. Decimal
-- digits run on the number itself as fuel. The lexer of PromQL runs on the length of the query, its
-- parser on eight units for each token and eight more, since no call goes deeper than six calls without
-- taking a token, and the line filters of LogQL on the length of their text. Times are nanoseconds in ℕ. The other numbers are counters
-- and sizes far below the bounds of their types.
--
-- Not modelled: sampling, the notifiers, the other exporters of the audit log, the
-- key store in Postgres, the services, and everything that is only I/O or a third-party library. Metrics, log
-- messages and the texts of errors are left out.
pub mod Prelude
pub mod Wal
pub mod Signal
pub mod Actor
pub mod Supervisor
pub mod Engine
pub mod ObserveQl
pub mod Auth
pub mod Retention
pub mod Cep
pub mod PromQl
pub mod LogQl
pub mod Sloburn
pub mod Spillover
pub mod AuditLog
