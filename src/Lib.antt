-- ===== src/Lib.antt =====
-- Dorf admits Sessions of coding agents, runs each in a Sandbox of some provider, and keeps what it
-- did in PostgreSQL. This library models the durable core: the rows, the transactions on them, and
-- the rules that decide who may change what outside.
--
-- Core.Domain (internal/core/domain.go): the records and the identities derived by SHA-256, which
-- Std.Sha256 computes as crypto/sha256 does.
-- Core.Cleanup (internal/core/cleanup.go): the order of cleanup, and the run over its targets.
-- Core.Execution (internal/core/service.go, application.go, idle.go): one Sandbox Action, from its
-- authorization to its record.
-- Core.Idle (internal/core/idle.go): the pause of Sandboxes that are not used.
-- Core.Native (internal/core/native_lifecycle.go): whether native work is idle, and its settlement.
-- Core.Profiles (internal/core/domain.go): the definition of a Sandbox profile and its hash.
-- Core.Admission (internal/core/admission.go): the configuration that a Session is admitted with.
-- Direct.Admission (internal/direct/admission.go, internal/profile/selection.go,
-- internal/gateway/defaults.go): a client's request, from its checks to the transaction.
-- Store (internal/postgres and its generated statements in internal/postgres/dbsql):
--   Table       rows under their primary key, with `update` and `insert … on conflict do nothing`
--   Db          the tables, and `Tx`, a transaction: it maps a database to a result and the next
--               database, and an error leaves nothing behind
--   Tasks       tasks.go: spawn, attach, replace; `schedule_cleanup` is ScheduleCleanup
--   Sandboxes   resources.go: the resources of a Sandbox
--   Holds       holds.go: what keeps native delivery out during maintenance
--   Native      native.go: the one unresolved native mutation of a Session
--   Actions     store.go: Actions, their authorization, and `complete_cleanup`
--   Attention   store.go: what an operator has to look at, by its source
--   Activity    idle.go: when the Sandboxes were last active
--   Retries     retry.go: one more attempt at a failed task, once for each request key
--   Profiles    profiles.go: the verification of a profile's candidate, its promotion, its fence
--   Admission   session_admission.go, direct.go: one Session under each admission key
--   Wakes       wakes.go: revisions and causes of a Session's execution wake
--   Upgrades    upgrades.go: the receipt of a package upgrade, recorded fact by fact
--   Custody     upgrades.go: the transactions that take a Sandbox for an upgrade and release it
--   Recovery    recovery.go: the transactions that recover a Sandbox from a checkpoint
-- Persistence.Recovery (internal/persistence/recovery.go, types.go): the request of a recovery and its
-- receipt.
-- Upgrade.Receipt (internal/upgrade/upgrade.go, internal/sandbox/checkpoint.go): the request, its
-- validation, and the status that a receipt stands for.
-- Upgrade.Driver, Upgrade.Service and Upgrade.Cleanup (internal/upgrade/service.go, cleanup.go): the
-- reconciliation of an upgrade, one durable step at a time. Upgrade.Service.Progress ranks what is
-- left of one.
-- Effects: an `Eff` may fail after some of it has happened; each transaction in it commits on its own.
-- What answers from outside, and whether the executor still holds its claim, is given by the records
-- Driver, Externals and NativeSession, as functions of the calls that were made before. These change
-- the database only through the statements that the services run.
-- Sandbox.Output (internal/sandbox/output.go): the bounded buffer of a command's output.
-- Sandbox.Files (internal/sandbox/file.go): a bounded batch of files, and its decoding; encoding/base64
-- and path.Clean are parameters.
-- Control.Store (internal/postgres/controlauth.go) and Control.Service
-- (internal/controlauth/controlauth.go): enrollments, and the clients that redeem one, on two tables of
-- their own; `Db.clients` are those clients, to which Sessions refer; strings.ToLower is a parameter.
--
-- The Session fence, an advisory lock, makes the transactions of a Session take turns, so that a
-- transition between databases is what one of them does. Texts are lists of bytes. Times are natural
-- numbers, and a `time.Time` that is zero until it is set is an option. `Db.clock` is the time of the
-- transaction.
--
-- Absurd, the task service, keeps its state in the same database: the `Absurd` record gives its
-- answers as functions of the calls that were made before, and the calls are kept in the database.
-- Random nonces are arguments; those that are fresh are taken to meet the constraints that ask them to be
-- unique.
--
-- Not modelled: the checks of texts by column constraints, the display names that queries join, queue
-- names, contexts and their cancellation, and log events. Migrations and providers are I/O.
pub mod Base
pub mod Control
pub mod Core
pub mod Direct
pub mod Effects
pub mod Persistence
pub mod Sandbox
pub mod Std
pub mod Store
pub mod Tests
pub mod Upgrade
