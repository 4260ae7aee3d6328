-- ===== src/Store/Tasks.antt =====
-- internal/postgres/tasks.go, with the task attachment of internal/postgres/store.go and their
-- queries: which Absurd task owns a Session, and how cleanup takes it over.
-- Task names, parameters and retry options are Absurd's to interpret; the queue is the one queue.
pub mod Handoff
use dorf.Base.{
  ℕ, suc, ◌+◌, ◌≡◌, refl, Bool, true, false, not, ◌&&◌, ◌||◌, Option, none, some, List, [], ◌∷◌,
  ◌++◌, Text, txt, ◌==◌, ltb, eqb, if◌then◌else◌, any, is_some,
}
use dorf.Base.Results.{Result, ok, err, Error, not_found, no_rows, message, constraint, Done}
use dorf.Core.Domain.{
  CleanupState, pending, requested, scheduled, complete, is_pending, is_requested, is_scheduled,
  is_complete, cleanup_task_name,
}
use dorf.Store.Table.{get, update}
use dorf.Store.Db.{
  SessionRow, TaskRow, Db, Absurd, spawn_task, cancel_task, Tx, ◌>>=◌, ◌>>◌, pure, fail, refuse_if,
  branch, one, exec, expect_one_rows,
}

-- `select … where session_id=… order by sequence desc limit 1`.
unfoldable pub latest_task : Text → List TaskRow → Option TaskRow
latest_task session [] = none
latest_task session (t ∷ ts) =
    let rest = latest_task session ts in
    if t.session_id == session
    then (elim rest [
      | none ↦ some t
      | some u ↦ if ltb u.sequence t.sequence then some t else some u
    ])
    else rest

pub record CurrentTask : Type 0 where
  pub task_id : Text
  pub task_name : Text
  pub sequence : ℕ
  pub admission_open : Bool
  pub cleanup_state : CleanupState

abbrev pub task_id_of : Option TaskRow → Text
task_id_of none = []
task_id_of (some t) = t.task_id

abbrev pub task_name_of : Option TaskRow → Text
task_name_of none = []
task_name_of (some t) = t.task_name

abbrev pub sequence_of : Option TaskRow → ℕ
sequence_of none = 0
sequence_of (some t) = t.sequence

abbrev pub current_of : SessionRow → Option TaskRow → CurrentTask
current_of row t = record {
  task_id = task_id_of t;
  task_name = task_name_of t;
  sequence = sequence_of t;
  admission_open = row.admission_open;
  cleanup_state = row.cleanup_state;
}

abbrev pub get_current_session_task : Text → Tx CurrentTask
get_current_session_task session = one λ db. elim (get session db.sessions) [
  | none ↦ none
  | some row ↦ some (current_of row (latest_task session db.session_tasks))
]

unfoldable pub has_task : Text → List TaskRow → Bool
has_task id [] = false
has_task id (t ∷ ts) = t.task_id == id || has_task id ts

-- `on conflict(task_id) do nothing`.
abbrev pub insert_session_task : TaskRow → Tx ℕ
insert_session_task t db = elim (has_task t.task_id db.session_tasks) [
  | true ↦ ok (0, db)
  | false ↦ ok (1, record db { session_tasks = t ∷ db.session_tasks })
]

abbrev pub mark_cleanup_scheduled : Text → Tx ℕ
mark_cleanup_scheduled session = exec λ db.
    let (t, n) =
      update session (λ r. not r.admission_open && is_requested r.cleanup_state)
        (λ r. record r { cleanup_state = scheduled }) db.sessions in
    (record db { sessions = t }, n)

abbrev pub request_cleanup : Text → Tx ℕ
request_cleanup session = exec λ db.
    let (t, n) =
      update session (λ r. is_pending r.cleanup_state || is_requested r.cleanup_state)
        (λ r. record r { admission_open = false; cleanup_state = requested }) db.sessions in
    (record db { sessions = t }, n)

abbrev pub validate_task_attachment_state : CurrentTask → Text → Bool → Tx Done
validate_task_attachment_state current task cleanup =
    branch cleanup
      (do
        refuse_if
            (current.admission_open
              || not (is_requested current.cleanup_state || is_scheduled current.cleanup_state))
            "cannot attach cleanup"
        refuse_if (is_scheduled current.cleanup_state && not (current.task_id == task))
            "already has cleanup task")
      (refuse_if (not current.admission_open || not (is_pending current.cleanup_state))
        "cannot attach ordinary task after cleanup begins")

-- The attachment proper: the same task again under its name, or the next in sequence.
abbrev pub attach_row : CurrentTask → Text → Text → Text → Text → Tx Done
attach_row current session expected task name =
    branch (current.task_id == task)
      (refuse_if (not (current.task_name == name)) "task is already attached under another name")
      (do
        refuse_if (not (current.task_id == expected)) "current task is not the expected predecessor"
        n ← insert_session_task (record {
          session_id = session;
          sequence = current.sequence + 1;
          task_id = task;
          task_name = name;
        })
        refuse_if (not (eqb n 1)) "task is already attached to another Session")

abbrev pub settle_scheduling : CurrentTask → Text → Bool → Tx Done
settle_scheduling current session cleanup =
    branch (cleanup && is_requested current.cleanup_state)
      (do
        n ← mark_cleanup_scheduled session
        refuse_if (not (eqb n 1)) "cleanup scheduling did not settle")
      (pure tt)

unfoldable pub attach_session_task : Text → Text → Text → Text → Bool → Tx Done
attach_session_task session expected task name cleanup = do
  current ← get_current_session_task session
  validate_task_attachment_state current task cleanup
  attach_row current session expected task name
  settle_scheduling current session cleanup

module _ (service : Absurd) where
  abbrev pub spawn_session_task : Text → Text → Text → Tx Text
  spawn_session_task session name key db = elim (service.spawn db.absurd_calls name session key) [
    | ok id ↦ ok (id, record db { absurd_calls = spawn_task name session key ∷ db.absurd_calls })
    | err e ↦ err e
  ]

  abbrev pub cancel_absurd_task : Text → Tx Done
  cancel_absurd_task task db = elim (service.cancel db.absurd_calls task) [
    | ok _ ↦ ok (tt, record db { absurd_calls = cancel_task task ∷ db.absurd_calls })
    | err e ↦ err e
  ]

  -- Admission replay preserves an existing handoff or a closed Session.
  unfoldable pub schedule_session_task : Text → Text → Text → Tx Done
  schedule_session_task session name key = do
    current ← get_current_session_task session
    branch (not (current.task_id == []) || not current.admission_open) (pure tt) (do
      refuse_if (not current.admission_open || not (is_pending current.cleanup_state))
          "cannot schedule ordinary work after cleanup begins"
      task ← spawn_session_task session name key
      attach_session_task session current.task_id task name false)

  abbrev pub cleanup_key : Text → Text
  cleanup_key session = txt "cleanup:v3:" ++ session

  -- The parts of `ScheduleCleanup` after its early return: the previous task is cancelled, unless
  -- it is the caller itself, and the cleanup task is spawned and attached.
  unfoldable pub retire : CurrentTask → Text → Tx Done
  retire current caller =
      branch (current.task_id == [] || current.task_id == caller) (pure tt)
        (cancel_absurd_task current.task_id)

  unfoldable pub launch : CurrentTask → Text → Tx Done
  launch current session = do
    task ← spawn_session_task session cleanup_task_name (cleanup_key session)
    attach_session_task session current.task_id task cleanup_task_name true

  unfoldable pub take_over : CurrentTask → Text → Text → Tx Done
  take_over current session caller = do
    expect_one_rows (request_cleanup session)
    retire current caller
    launch current session

  unfoldable pub schedule_cleanup : Text → Text → Tx Done
  schedule_cleanup session caller = do
    current ← get_current_session_task session
    branch (is_scheduled current.cleanup_state || is_complete current.cleanup_state) (pure tt)
        (take_over current session caller)
