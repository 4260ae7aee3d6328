-- ===== src/Store/Holds.antt =====
-- internal/postgres/holds.go and its queries: a delivery hold keeps new native work out of a
-- Sandbox while maintenance runs.
use dorf.Base.{ℕ, Bool, true, false, not, ◌&&◌, ◌||◌, none, some, Text, txt, ◌==◌, is_some}
use dorf.Base.Results.{ok, err, constraint, Done}
use dorf.Std.Strings.{is_bounded_identity}
use dorf.Store.Table.{Table, get, put, update, any_row, rows_where}
use dorf.Store.Db.{
  SessionRow, SandboxRow, HoldRow, Db, Tx, ◌>>=◌, ◌>>◌, gets, refuse_if, one, exec, or_now,
}

abbrev pub owner_is : Table SandboxRow → Text → Text → Bool
owner_is sandboxes session sandbox = elim (get sandbox sandboxes) [
  | none ↦ false
  | some s ↦ s.session_id == session
]

abbrev pub is_held : HoldRow → Bool
is_held h = not (is_some h.released_at)

abbrev pub get_sandbox_delivery_hold : Text → Tx HoldRow
get_sandbox_delivery_hold id = one λ db. get id db.holds

unfoldable pub delivery_held : Db → Text → Bool
delivery_held db sandbox = any_row (λ _ h. h.sandbox_id == sandbox && is_held h) db.holds

abbrev pub sandbox_delivery_held : Text → Tx Bool
sandbox_delivery_held sandbox = gets λ db. delivery_held db sandbox

-- Whether any Sandbox of the Session is held: `exists (select … from sandbox_delivery_holds h join
-- sandboxes s …)`.
unfoldable pub session_held : Db → Text → Bool
session_held db session =
    any_row (λ _ h. owner_is db.sandboxes session h.sandbox_id && is_held h) db.holds

-- The primary key, the foreign key, and the index `sandbox_one_delivery_hold`.
abbrev pub insert_hold : Text → Text → Text → Tx Done
insert_hold reason id sandbox db =
    elim (is_some (get id db.holds)
      || (not (is_some (get sandbox db.sandboxes)) || delivery_held db sandbox)) [
        | true ↦ err (constraint "sandbox_delivery_holds")
        | false ↦ ok (
          tt,
          record db {
            holds =
                put id
                  (record {
                    sandbox_id = sandbox;
                    reason = reason;
                    requested_at = db.clock;
                    released_at = none;
                  })
                  db.holds;
          },
        )
      ]

unfoldable pub insert_sandbox_delivery_hold : Text → Text → Tx Done
insert_sandbox_delivery_hold id sandbox = insert_hold (txt "workspace_upgrade") id sandbox

abbrev pub release_sandbox_delivery_hold : Text → Text → Tx ℕ
release_sandbox_delivery_hold id sandbox = exec λ db.
    let (t, n) =
      update id (λ h. h.sandbox_id == sandbox)
        (λ h. record h { released_at = or_now h.released_at db.clock }) db.holds in
    (record db { holds = t }, n)

-- The unreleased holds on the Session's Sandboxes. The callers test membership only, so the order
-- of the query does not matter.
unfoldable pub session_delivery_holds : Db → Text → Table HoldRow
session_delivery_holds db session =
    rows_where (λ _ h. owner_is db.sandboxes session h.sandbox_id && is_held h) db.holds

-- `requireSandboxDeliveryUnheld`.
abbrev pub require_sandbox_delivery_unheld : Text → Tx Done
require_sandbox_delivery_unheld sandbox = do
  held ← sandbox_delivery_held sandbox
  refuse_if held "Sandbox already has an unfinished maintenance operation"

-- The Session fence makes the transactions of one Session take turns, which a state transition is.
unfoldable pub with_delivery_hold : {A : Type 0} → Text → Text → Text → (SessionRow → Tx A) → Tx A
with_delivery_hold session sandbox operation fn = do
  refuse_if
      (not (
        is_bounded_identity 256 session
        && (is_bounded_identity 256 sandbox && is_bounded_identity 256 operation)))
      "delivery hold requires exact bounded identities"
  row ← one λ db. get session db.sessions
  owned ← one λ db. get sandbox db.sandboxes
  refuse_if (not (owned.session_id == session)) "delivery hold belongs to a different Session"
  fn row
