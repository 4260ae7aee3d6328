-- ===== src/Store/Retries.antt =====
-- internal/postgres/retry.go: one more attempt at a Session's failed task, once for each request key.
-- The advisory lock on the key makes the requests under it take turns.
pub mod Replay
use dorf.Base.{
  ℕ, Bool, true, false, not, ◌||◌, Option, none, some, [], ◌∷◌, Text, ◌==◌, leb, ltb, eqb, is_some,
  length,
}
use dorf.Base.Results.{ok, err, not_found, message, constraint, Done}
use dorf.Std.Strings.{trim_space}
use dorf.Store.Table.{get, put}
use dorf.Store.Tasks.{latest_task, task_id_of}
use dorf.Store.Db.{
  RetryRow, RetriedTask, retry_task, Db, Absurd, Tx, ◌>>=◌, ◌>>◌, pure, refuse_if, branch,
}

pub record RetryReceipt : Type 0 where
  pub request_key : Text
  pub session_id : Text
  pub task_id : Text
  pub run_id : Text
  pub attempt : ℕ
  pub created : Bool

-- `retryReceipt`.
abbrev pub receipt_of : Text → RetryRow → Bool → RetryReceipt
receipt_of key r created = record {
  request_key = key;
  session_id = r.session_id;
  task_id = r.task_id;
  run_id = r.run_id;
  attempt = r.attempt;
  created = created;
}

abbrev pub row_of : Text → RetriedTask → RetryRow
row_of session t = record {
  session_id = session;
  task_id = t.task_id;
  run_id = t.run_id;
  attempt = t.attempt;
}

abbrev pub replay : Text → Text → RetryRow → Tx RetryReceipt
replay session key r =
    refuse_if (not (r.session_id == session))
      "retry request key already identifies a different Session"
    >> pure (receipt_of key r false)

-- The primary key of the requests.
abbrev pub insert_retry : Text → RetryRow → Tx Done
insert_retry key r db = elim (is_some (get key db.retries)) [
  | true ↦ err (constraint "session_retry_requests")
  | false ↦ ok (tt, record db { retries = put key r db.retries })
]

abbrev pub current_task : Text → Tx Text
current_task session db = elim (get session db.sessions) [
  | none ↦ err not_found
  | some _ ↦ ok (task_id_of (latest_task session db.session_tasks), db)
]

module _ (service : Absurd) where
  abbrev pub ask : Text → Tx RetriedTask
  ask task db = elim (service.retry db.absurd_calls task) [
    | err e ↦ err e
    | ok t ↦ ok (t, record db { absurd_calls = retry_task task ∷ db.absurd_calls })
  ]

  unfoldable pub schedule_retry : Text → Text → Tx RetryReceipt
  schedule_retry session key = do
    task ← current_task session
    refuse_if (task == []) "Session has no attached execution task"
    t ← ask task
    refuse_if (not (t.task_id == task) || (t.run_id == [] || (eqb t.attempt 0 || t.created)))
        "Absurd retry returned a conflicting receipt for Session"
    insert_retry key (row_of session t)
    pure (receipt_of key (row_of session t) true)

  unfoldable pub retry_keyed : Text → Text → Tx RetryReceipt
  retry_keyed session key db = elim (get key db.retries) [
    | some r ↦ replay session key r db
    | none ↦ schedule_retry session key db
  ]

  -- `RetryFailedSession`.
  unfoldable pub retry_failed_session : Text → Text → Tx RetryReceipt
  retry_failed_session session key =
      branch
        (trim_space session == [] || (trim_space key == [] || ltb 255 (length (trim_space key))))
        (λ db.
          err (message "retry requires a valid queue, Session ID, and caller-retained request key"))
        (retry_keyed (trim_space session) (trim_space key))
