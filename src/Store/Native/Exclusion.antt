-- ===== src/Store/Native/Exclusion.antt =====
-- One native mutation at a time, and only while the Session may be written to.
use dorf.Base.{ℕ, ◌+◌, ◌≡◌, ◌≢◌, ◌⊎◌, true, false, some, [], Text, arith}
use dorf.Base.Results.{ok, err, no_rows}
use dorf.Core.Domain.{pending}
use dorf.Store.Table.{get, put, get-put_self, update}
use dorf.Store.Holds.{session_held}
use dorf.Store.Db.{SessionRow, Db}
use dorf.Store.Native.{
  is_settled, settled_row, begun, begin_native_mutation, finish_native_mutation,
}

-- A mutation that begins found the Session open, its bound thread, no mutation pending and no
-- delivery hold; it advances the revision by one and changes nothing but the Session's row.
pub begin-requires :
    (session thread input turn : Text) (revision : ℕ) (db db' : Db) (r : SessionRow)
    → get session db.sessions ≡ some r
    → begin_native_mutation session thread input turn db ≡ ok (revision, db')
    → (r.admission_open ≡ true)
      × (r.cleanup_state ≡ pending)
      × (r.thread_id ≡ some thread)
      × (is_settled r ≡ true)
      × (session_held db session ≡ false)
      × (revision ≡ r.native_revision + 1)
      × (db' ≡ record db { sessions = put session (begun r input turn) db.sessions })
unfolding begin_native_mutation
begin-requires session thread input turn revision db db' r e h = ground (arith, e)

-- While a mutation is pending no other begins.
pub begin-excludes :
    (session thread input turn : Text) (revision : ℕ) (db db' : Db) (r : SessionRow)
    → get session db.sessions ≡ some r
    → begin_native_mutation session thread input turn db ≡ ok (revision, db')
    → (input ≢ []) ⊎ (turn ≢ [])
    → (thread' input' turn' : Text)
    → begin_native_mutation session thread' input' turn' db' ≡ err no_rows
unfolding begin_native_mutation
begin-excludes session thread input turn revision db db' r e h some_kind thread' input' turn' =
    ground (arith, e, get-put_self session (begun r input turn) db.sessions)

-- Of a pending mutation only the revision that it was begun under can settle it, so that a late
-- settlement of an earlier one changes nothing; settled, the Session is free for the next mutation,
-- under the revision that it had reached.
pub finish-current :
    (session thread input turn : Text) (revision late : ℕ) (db db' db'' : Db) (r : SessionRow)
    → get session db.sessions ≡ some r
    → begin_native_mutation session thread input turn db ≡ ok (revision, db')
    → finish_native_mutation session late db' ≡ ok (tt, db'')
    → (late ≡ revision)
      × (get session db''.sessions ≡ some (settled_row (begun r input turn)))
      × (is_settled (settled_row (begun r input turn)) ≡ true)
unfolding begin_native_mutation finish_native_mutation update
finish-current session thread input turn revision late db db' db'' r e h k = ground (
  arith,
  e,
  get-put_self session (begun r input turn) db.sessions,
  get-put_self session (settled_row (begun r input turn)) db'.sessions,
)
