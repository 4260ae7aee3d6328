-- ===== src/Store/Wakes.antt =====
-- internal/postgres/wakes.go and its queries: wake hints under a per-Session revision, one for each
-- cause. The checks on the texts of a cause key are left to the database.
pub mod Causes
use dorf.Base.{
  ℕ, suc, ◌+◌, ◌≡◌, refl, Bool, true, false, not, ◌&&◌, ◌||◌, Option, none, some, List, [], ◌∷◌,
  ◌++◌, Text, txt, ◌==◌, eqb, is_some,
}
use dorf.Base.Results.{ok, err, Error, not_found, no_rows, message, constraint, Done}
use dorf.Std.Strings.{is_bounded_identity}
use dorf.Core.Domain.{is_pending}
use dorf.Store.Table.{get, put, insert_new}
use dorf.Store.Db.{
  SessionRow, WakeCause, Db, Absurd, emit_event, Tx, ◌>>=◌, ◌>>◌, pure, fail, refuse_if, branch,
  one, or_empty,
}

abbrev pub max_int64 : ℕ
max_int64 = 9223372036854775807

-- `coalesce(w.revision,0)` of an existing Session.
unfoldable pub session_execution_wake_revision : Text → Tx ℕ
session_execution_wake_revision session db = elim (get session db.sessions) [
  | none ↦ err not_found
  | some _ ↦ elim (get session db.wakes) [ none ↦ ok (0, db) | some n ↦ ok (n, db) ]
]

-- `EnsureSessionExecutionWake` and `LockSessionExecutionWake`; the wake's row refers to its Session.
unfoldable pub ensure_wake : Text → Tx ℕ
ensure_wake session db = elim (get session db.wakes) [
  | some n ↦ ok (n, db)
  | none ↦ elim (get session db.sessions) [
    | none ↦ err (constraint "session_execution_wakes")
    | some _ ↦ ok (0, record db { wakes = put session 0 db.wakes })
  ]
]

-- The revision recorded for a cause.
unfoldable pub find_cause : Text → Text → List WakeCause → Option ℕ
find_cause session cause [] = none
find_cause session cause (c ∷ cs) =
    let rest = find_cause session cause cs in
    elim (c.session_id == session && c.cause_key == cause) [ true ↦ some c.revision | false ↦ rest ]

-- `unique(session_id, revision)`.
unfoldable pub revision_taken : Text → ℕ → List WakeCause → Bool
revision_taken session n [] = false
revision_taken session n (c ∷ cs) =
    (c.session_id == session && eqb c.revision n) || revision_taken session n cs

abbrev pub wake_cause : Text → Text → ℕ → WakeCause
wake_cause session cause n = record { session_id = session; cause_key = cause; revision = n }

-- `SetSessionExecutionWakeRevision` and `InsertSessionExecutionWakeCause`, for a new cause.
unfoldable pub record_cause : Text → Text → ℕ → Tx ℕ
record_cause session cause current db = elim (eqb current max_int64) [
  | true ↦ err (message "execution wake revision is exhausted")
  | false ↦ elim (revision_taken session (current + 1) db.wake_causes) [
    | true ↦ err (constraint "session_execution_wake_causes")
    | false ↦ ok (
      current + 1,
      record db {
        wakes = put session (current + 1) db.wakes;
        wake_causes = wake_cause session cause (current + 1) ∷ db.wake_causes;
      },
    )
  ]
]

unfoldable pub revise : Text → Text → ℕ → Tx ℕ
revise session cause current db = elim (find_cause session cause db.wake_causes) [
  | some n ↦ ok (n, db)
  | none ↦ record_cause session cause current db
]

pub record NativeTerminalWakeTarget : Type 0 where
  pub session_id : Text
  pub sandbox_id : Text
  pub thread_id : Text
  pub turn_id : Text

unfoldable pub valid_target : NativeTerminalWakeTarget → Bool
valid_target t =
    is_bounded_identity 256 t.session_id
    && (is_bounded_identity 256 t.sandbox_id
        && (is_bounded_identity 256 t.thread_id && is_bounded_identity 256 t.turn_id))

module _ (service : Absurd) where
  unfoldable pub emit : Text → Text → ℕ → Tx ℕ
  emit session cause n db = elim (service.emit db.absurd_calls session n cause) [
    | err e ↦ err e
    | ok _ ↦ ok (n, record db { absurd_calls = emit_event session n cause ∷ db.absurd_calls })
  ]

  -- `signalSessionExecutionWakeTx`.
  unfoldable pub signal_session_execution_wake : Text → Text → Tx ℕ
  unfolding ensure_wake revise record_cause emit
  signal_session_execution_wake session cause = do
    current ← ensure_wake session
    n ← revise session cause current
    emit session cause n

  abbrev pub terminal_cause : NativeTerminalWakeTarget → Text
  terminal_cause t = txt "native-terminal:" ++ t.thread_id ++ (b':' ∷ t.turn_id)

  -- `SignalNativeTerminalWake`: whether a wake was signalled.
  unfoldable pub signal_native_terminal_wake : NativeTerminalWakeTarget → Tx Bool
  signal_native_terminal_wake t = do
    refuse_if (not (valid_target t)) "native terminal wake requires bounded exact IDs"
    s ← one λ db. get t.session_id db.sessions
    box ← one λ db. get t.sandbox_id db.sandboxes
    refuse_if (not (box.session_id == t.session_id)) "native terminal wake Thread was not found"
    refuse_if (not (or_empty s.thread_id == []) && not (or_empty s.thread_id == t.thread_id))
        "native terminal wake conflicts with the durable Thread or Turn binding"
    branch (not s.admission_open || not (is_pending s.cleanup_state)) (pure false)
        (do n ← signal_session_execution_wake t.session_id (terminal_cause t); pure true)
