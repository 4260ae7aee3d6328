-- ===== src/Store/Native.antt =====
-- internal/postgres/native.go and its queries: the cutoff and the unresolved native mutation that
-- a Session's row retains.
pub mod Exclusion
use dorf.Base.{
  ℕ, suc, ◌+◌, ◌≡◌, refl, Bool, true, false, not, ◌&&◌, ◌||◌, Option, none, some, List, [], ◌∷◌,
  Text, ◌==◌, eqb, is_some,
}
use dorf.Base.Results.{ok, err, Error, no_rows, constraint, Done}
use dorf.Core.Domain.{CleanupState, is_pending}
use dorf.Store.Table.{get, put, update}
use dorf.Store.Holds.{session_held}
use dorf.Store.Db.{
  SessionRow, Db, Tx, ◌>>=◌, ◌>>◌, one, exec, expect_one_rows, or_empty, null_if_empty,
}

pub record NativeState : Type 0 where
  pub revision : ℕ
  pub pending_input_id : Text
  pub pending_turn_id : Text

abbrev pub state_of : SessionRow → NativeState
state_of r = record {
  revision = r.native_revision;
  pending_input_id = or_empty r.native_pending_input_id;
  pending_turn_id = or_empty r.native_pending_turn_id;
}

abbrev pub native_state : Text → Tx NativeState
native_state session =
    one λ db. elim (get session db.sessions) [ none ↦ none | some r ↦ some (state_of r) ]

abbrev pub is_settled : SessionRow → Bool
is_settled r = not (is_some r.native_pending_input_id) && not (is_some r.native_pending_turn_id)

abbrev pub is_open : SessionRow → Bool
is_open r = r.admission_open && is_pending r.cleanup_state

-- `thread_id = $1`, where `nullableString` passes the empty text as null, which equals nothing.
abbrev pub thread_is : SessionRow → Text → Bool
thread_is r thread = elim r.thread_id [ none ↦ false | some t ↦ t == thread && not (thread == []) ]

unfoldable pub bind_native_thread : Text → Text → Tx Done
bind_native_thread session thread = expect_one_rows (
    exec λ db.
      let (t, n) =
        update session
          (λ r. is_open r && (thread_is r thread || (eqb r.native_revision 0 && is_settled r)))
          (λ r. record r { thread_id = null_if_empty thread }) db.sessions in
      (record db { sessions = t }, n))

abbrev pub begun : SessionRow → Text → Text → SessionRow
begun r input turn = record r {
  native_revision = r.native_revision + 1;
  native_pending_input_id = null_if_empty input;
  native_pending_turn_id = null_if_empty turn;
}

-- `BeginNativeMutation`: one row is changed and its new revision returned, or no row. The
-- constraint `native_pending_one_kind` forbids an input and a turn at once.
unfoldable pub begin_native_mutation : Text → Text → Text → Text → Tx ℕ
begin_native_mutation session thread input turn db = elim (get session db.sessions) [
  | none ↦ err no_rows
  | some r ↦
      elim (is_open r && (thread_is r thread && (is_settled r && not (session_held db session)))) [
        | false ↦ err no_rows
        | true ↦ elim (not (input == []) && not (turn == [])) [
          | true ↦ err (constraint "native_pending_one_kind")
          | false ↦ ok (
            r.native_revision + 1,
            record db { sessions = put session (begun r input turn) db.sessions },
          )
        ]
      ]
]

abbrev pub settled_row : SessionRow → SessionRow
settled_row r = record r { native_pending_input_id = none; native_pending_turn_id = none }

unfoldable pub finish_native_mutation : Text → ℕ → Tx Done
finish_native_mutation session revision = expect_one_rows (
    exec λ db.
      let (t, n) = update session (λ r. eqb r.native_revision revision) settled_row db.sessions in
      (record db { sessions = t }, n))
