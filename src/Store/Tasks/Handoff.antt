-- ===== src/Store/Tasks/Handoff.antt =====
-- What a task handoff leaves behind.
use dorf.Base.{
  ◌+◌, ◌≡◌, refl, ◌⊎◌, inl, inr, Bool, true, false, Option, none, some, List, ◌∷◌, Text, ==_iff,
  arith,
}
use dorf.Base.Results.{ok, Done, Result-cases}
use dorf.Core.Domain.{requested, scheduled, complete, is_pending, cleanup_task_name}
use dorf.Store.Table.{get, get-put_self, update}
use dorf.Store.Db.{
  SessionRow, TaskRow, Db, Absurd, Tx, spawn_task, expect_one_rows, ◌>>◌, >>=-eq-ok,
}
use dorf.Store.Tasks.{
  latest_task, request_cleanup, CurrentTask, retire, launch, cleanup_key, task_id_of, sequence_of,
  attach_session_task, take_over, schedule_cleanup, current_of, task_name_of,
}

-- A row with the next sequence number becomes the latest one.
pub latest_task-next :
    (session : Text) (t : TaskRow) (ts : List TaskRow)
    → t.session_id ≡ session
    → t.sequence ≡ sequence_of (latest_task session ts) + 1
    → latest_task session (t ∷ ts) ≡ some t
unfolding latest_task
latest_task-next session t ts h e = ground arith

abbrev task_row : Text → Text → Text → List TaskRow → TaskRow
task_row session task name ts = record {
  session_id = session;
  sequence = sequence_of (latest_task session ts) + 1;
  task_id = task;
  task_name = name;
}

-- An attachment that succeeds makes the task the Session's current one, under its name.
pub attach-current :
    (session expected task name : Text) (cleanup : Bool) (db db' : Db)
    → attach_session_task session expected task name cleanup db ≡ ok (tt, db')
    → (task_id_of (latest_task session db'.session_tasks) ≡ task)
      × (task_name_of (latest_task session db'.session_tasks) ≡ name)
unfolding attach_session_task
attach-current session expected task name cleanup db db' h = ground (
  arith,
  ==_iff (task_id_of (latest_task session db.session_tasks)) task,
  latest_task-next session (task_row session task name db.session_tasks) db.session_tasks refl refl,
)

pub attach-scheduled :
    (session expected task name : Text) (db db' : Db) (row : SessionRow)
    → get session db.sessions ≡ some row
    → row.cleanup_state ≡ requested
    → row.admission_open ≡ false
    → attach_session_task session expected task name true db ≡ ok (tt, db')
    → get session db'.sessions ≡ some (record row { cleanup_state = scheduled })
unfolding attach_session_task update
attach-scheduled session expected task name db db' row e q a h =
    ground (arith, e, get-put_self session (record row { cleanup_state = scheduled }) db.sessions)

-- Admission is open exactly while cleanup has not been asked for.
abbrev pub IsConsistent : SessionRow → Type 0
IsConsistent r = r.admission_open ≡ is_pending r.cleanup_state

abbrev pub IsClosed : Option SessionRow → Type 0
IsClosed none = ⊥
IsClosed (some r) =
    (r.admission_open ≡ false) × ((r.cleanup_state ≡ scheduled) ⊎ (r.cleanup_state ≡ complete))

pub request_cleanup-lem :
    (session : Text) (db db' : Db) (row : SessionRow)
    → get session db.sessions ≡ some row
    → expect_one_rows (request_cleanup session) db ≡ ok (tt, db')
    → (get session db'.sessions
        ≡ some (record row { admission_open = false; cleanup_state = requested }))
unfolding update
request_cleanup-lem session db db' row e h = ground (
  arith,
  e,
  get-put_self session (record row { admission_open = false; cleanup_state = requested })
      db.sessions,
)

module _ (service : Absurd) where
  pub launch-lem :
      (session : Text) (current : CurrentTask) (db db' : Db) (row : SessionRow)
      → get session db.sessions ≡ some row
      → row.cleanup_state ≡ requested
      → row.admission_open ≡ false
      → launch service current session db ≡ ok (tt, db')
      → (get session db'.sessions ≡ some (record row { cleanup_state = scheduled }))
        × (task_name_of (latest_task session db'.session_tasks) ≡ cleanup_task_name)
  unfolding launch
  launch-lem session current db db' row e q a h =
      elim (Result-cases
        (service.spawn db.absurd_calls cleanup_task_name session (cleanup_key service session))) [
          | inl (task, r) ↦
              let db1 : Db = record db {
                absurd_calls =
                    spawn_task cleanup_task_name session (cleanup_key service session)
                    ∷ db.absurd_calls;
              } in
              ground (
                arith,
                r,
                attach-current session current.task_id task cleanup_task_name true db1 db',
                attach-scheduled session current.task_id task cleanup_task_name db1 db' row,
              )
          | inr (x, r) ↦ ground (arith, r)
        ]

  retire-sessions :
      (current : CurrentTask) (caller : Text) (db db' : Db)
      → retire service current caller db ≡ ok (tt, db')
      → db'.sessions ≡ db.sessions
  unfolding retire
  retire-sessions current caller db db' h = ground arith

  pub take_over-lem :
      (session caller : Text) (current : CurrentTask) (db db' : Db) (row : SessionRow)
      → get session db.sessions ≡ some row
      → take_over service current session caller db ≡ ok (tt, db')
      → (get session db'.sessions
          ≡ some (record row { admission_open = false; cleanup_state = scheduled }))
        × (task_name_of (latest_task session db'.session_tasks) ≡ cleanup_task_name)
  unfolding take_over
  take_over-lem session caller current db db' row e h =
      let rest : Tx Done = retire service current caller >> launch service current session in
      let (_, db1, h1, k1) =
        >>=-eq-ok (expect_one_rows (request_cleanup session)) (λ _. rest) db h in
      let (_, db2, h2, k2) =
        >>=-eq-ok (retire service current caller) (λ _. launch service current session) db1 k1 in
      let kept = retire-sessions current caller db1 db2 h2 in
      launch-lem session current db2 db'
        (record row { admission_open = false; cleanup_state = requested })
        (rw kept (request_cleanup-lem session db db1 row e h1)) refl refl k2

  -- Cleanup, once scheduled, has closed the Session: admission is shut and its state is scheduled or
  -- complete. Unless that was so before, the current task is now the cleanup task.
  pub schedule_cleanup-IsClosed :
      (session caller : Text) (db db' : Db) (row : SessionRow)
      → get session db.sessions ≡ some row
      → IsConsistent row
      → schedule_cleanup service session caller db ≡ ok (tt, db')
      → IsClosed (get session db'.sessions)
        × ((db' ≡ db) ⊎ (task_name_of (latest_task session db'.session_tasks) ≡ cleanup_task_name))
  unfolding schedule_cleanup
  schedule_cleanup-IsClosed session caller db db' row e c h = ground (
    arith,
    e,
    take_over-lem session caller (current_of row (latest_task session db.session_tasks)) db db' row
        e,
  )

  -- Asking again changes nothing, whoever asks: the second call commits nothing and succeeds.
  pub schedule_cleanup_idem :
      (session caller again : Text) (db db' : Db) (row : SessionRow)
      → get session db.sessions ≡ some row
      → IsConsistent row
      → schedule_cleanup service session caller db ≡ ok (tt, db')
      → schedule_cleanup service session again db' ≡ ok (tt, db')
  unfolding schedule_cleanup
  schedule_cleanup_idem session caller again db db' row e c h = ground (
    arith,
    e,
    take_over-lem session caller (current_of row (latest_task session db.session_tasks)) db db' row
        e,
  )
