-- ===== src/Store/Activity.antt =====
-- internal/postgres/idle.go and its queries: when a Session's Sandboxes were last active. While an
-- operation runs there is no time.
use dorf.Base.{◌+◌, ℕ, true, false, not, ◌&&◌, Bool, none, some, Text, leb}
use dorf.Base.Results.{ok, err, no_rows, Done}
use dorf.Store.Table.{get, put, update}
use dorf.Store.Db.{SessionRow, Db, Tx, exec, expect_one_rows, or_now}
use dorf.Store.Holds.{session_held}
use dorf.Store.Native.{is_settled}

unfoldable pub begin_sandbox_activity : Text → Tx Done
begin_sandbox_activity session = expect_one_rows (
    exec λ db.
      let (t, n) =
        update session (λ r. true) (λ r. record r { sandbox_last_active_at = none }) db.sessions in
      (record db { sessions = t }, n))

unfoldable pub finish_sandbox_activity : Text → Tx Done
finish_sandbox_activity session = expect_one_rows (
    exec λ db.
      let (t, n) =
        update session (λ r. true) (λ r. record r { sandbox_last_active_at = some db.clock })
          db.sessions in
      (record db { sessions = t }, n))

abbrev pub active_since : SessionRow → ℕ → SessionRow
active_since r now = record r { sandbox_last_active_at = or_now r.sandbox_last_active_at now }

-- The test of `SandboxIdleFor` on the row that it updated.
abbrev pub is_idle_for : Db → Text → ℕ → SessionRow → Bool
is_idle_for db session duration r = elim r.sandbox_last_active_at [
  | none ↦ false
  | some at ↦ leb (at + duration) db.clock && (is_settled r && not (session_held db session))
]

-- `SandboxIdleFor`: a Session without a time starts a fresh grace period.
unfoldable pub sandbox_idle_for : Text → ℕ → Tx Bool
sandbox_idle_for session duration db = elim (get session db.sessions) [
  | none ↦ err no_rows
  | some r ↦ ok (
    is_idle_for db session duration (active_since r db.clock),
    record db { sessions = put session (active_since r db.clock) db.sessions },
  )
]
