-- ===== src/Tests/StoreTests.antt =====
-- The transactions on the small database.
use dorf.Base.{
  false, ℕ, ◌≡◌, refl, inl, true, none, some, [], Text, txt, Text-discrete, ℕ_discrete, arith,
}
use dorf.Base.Results.{Result, ok, err, no_rows}
use dorf.Std.Sha256.{sum256, hex}
use dorf.Std.Strings.{trim_space}
use dorf.Core.Domain.{unsettled, sandbox_delete, digest, scoped_action_id, cleanup_task_name}
use dorf.Store.Table.{get, put, update}
use dorf.Store.Db.{Db}
use dorf.Store.Sandboxes.{find_sandbox, find_session, session_of, sandbox_of}
use dorf.Store.Tasks.{
  latest_task, has_task, attach_session_task, retire, launch, take_over, schedule_cleanup,
}
use dorf.Store.Tasks.Handoff.{IsClosed, schedule_cleanup-IsClosed, schedule_cleanup_idem}
use dorf.Store.Holds.{session_held}
use dorf.Store.Native.{
  begin_native_mutation, finish_native_mutation, begun, settled_row, is_settled,
}
use dorf.Store.Native.Exclusion.{begin-excludes, finish-current}
use dorf.Store.Actions.{
  Authorization, find_scoped, authorize_action, authorize_sandbox_action, is_unsettled,
  count_unsettled, complete_cleanup, completed_row, action_of,
}
use dorf.Store.Actions.Authority.{authorize_sound}
use dorf.Store.Actions.Completion.{complete_cleanup_sound}
use dorf.Store.Wakes.{
  signal_session_execution_wake, ensure_wake, revise, record_cause, emit, find_cause,
  revision_taken,
}
use dorf.Store.Wakes.Causes.{IsValid, signal-once, signal-IsValid}
use dorf.Store.Retries.{RetryReceipt, schedule_retry, retry_keyed, retry_failed_session}
use dorf.Store.Retries.Replay.{retry_idem}
use dorf.Tests.Fixtures.{
  the_sandbox, live_resource, action_row, sid, bid, rid, open_session, closed_session, open_db,
  cleanup_db, settled_db, willing,
}

abbrev after : {A : Type 0} → Result (A × Db) → Db
after (ok (a, db)) = db
after (err e) = open_db

-- The database after cleanup was scheduled.
abbrev scheduled_db : Db
scheduled_db = after (schedule_cleanup willing sid [] open_db)

schedule_cleanup-IsClosed_example : IsClosed (get sid scheduled_db.sessions)
unfolding schedule_cleanup take_over retire launch attach_session_task update get put latest_task
    has_task Text-discrete ℕ_discrete
schedule_cleanup-IsClosed_example =
    (schedule_cleanup-IsClosed willing sid [] open_db scheduled_db open_session refl refl refl).0

schedule_cleanup_idem_example :
    schedule_cleanup willing sid (txt "other") scheduled_db ≡ ok (tt, scheduled_db)
unfolding schedule_cleanup take_over retire launch attach_session_task update get put latest_task
    has_task Text-discrete ℕ_discrete
schedule_cleanup_idem_example =
    schedule_cleanup_idem willing sid [] (txt "other") open_db scheduled_db open_session refl refl
      refl

abbrev begun_db : Db
begun_db = after (begin_native_mutation sid (txt "th") (txt "i1") [] open_db)

begin-excludes_example : begin_native_mutation sid (txt "th") (txt "i2") [] begun_db ≡ err no_rows
unfolding begin_native_mutation session_held get put Text-discrete ℕ_discrete
begin-excludes_example =
    begin-excludes sid (txt "th") (txt "i1") [] 4 open_db begun_db open_session refl refl
      (inl (λ e. cc)) (txt "th") (txt "i2") []

abbrev settled_again : Db
settled_again = after (finish_native_mutation sid 4 begun_db)

finish-current_example :
    (◌≡◌ {A = ℕ} 4 4)
    × (get sid settled_again.sessions ≡ some (settled_row (begun open_session (txt "i1") [])))
    × (is_settled (settled_row (begun open_session (txt "i1") [])) ≡ true)
unfolding begin_native_mutation finish_native_mutation session_held update get put Text-discrete
    ℕ_discrete
finish-current_example =
    finish-current sid (txt "th") (txt "i1") [] 4 4 open_db begun_db settled_again open_session refl
      refl refl

abbrev delete_id : Text
delete_id = scoped_action_id sid sandbox_delete bid

abbrev no_auth : Authorization
no_auth = record {
  session = session_of cleanup_db sid closed_session;
  sandbox = sandbox_of bid the_sandbox rid live_resource;
  action = action_of delete_id (action_row sandbox_delete unsettled none);
  task_id = txt "t2";
  task_name = cleanup_task_name;
}

authorize_sound_example : find_session cleanup_db sid ≡ some no_auth.session
unfolding authorize_sandbox_action authorize_action find_scoped find_sandbox find_session trim_space
    get latest_task scoped_action_id digest sum256 hex Text-discrete ℕ_discrete
authorize_sound_example =
    (authorize_sound delete_id (txt "t2") cleanup_task_name cleanup_db cleanup_db no_auth
      (action_row sandbox_delete unsettled none) refl refl).1

abbrev cleaned_db : Db
cleaned_db = after (complete_cleanup sid (txt "t2") settled_db)

complete_cleanup_sound_example : get sid cleaned_db.sessions ≡ some (completed_row closed_session 9)
unfolding complete_cleanup is_unsettled count_unsettled trim_space update get put latest_task
    scoped_action_id digest sum256 hex Text-discrete ℕ_discrete
complete_cleanup_sound_example =
    (complete_cleanup_sound sid (txt "t2") settled_db cleaned_db closed_session refl refl refl).1

abbrev woken_db : Db
woken_db = after (signal_session_execution_wake willing sid (txt "input") open_db)

signal-once_example : find_cause sid (txt "input") woken_db.wake_causes ≡ some 1
unfolding signal_session_execution_wake ensure_wake revise record_cause emit find_cause
    revision_taken get put Text-discrete ℕ_discrete
signal-once_example =
    (signal-once willing sid (txt "input") open_db woken_db 1
      (record { capped = tt; bounded = omega arith }) refl).0

signal-IsValid_example : IsValid sid woken_db
unfolding signal_session_execution_wake ensure_wake revise record_cause emit find_cause
    revision_taken get put Text-discrete ℕ_discrete
signal-IsValid_example =
    signal-IsValid willing sid (txt "input") open_db woken_db 1
      (record { capped = tt; bounded = omega arith }) refl

abbrev retried_db : Db
retried_db = after (retry_failed_session willing sid (txt "again") open_db)

abbrev retried : RetryReceipt
retried = record {
  request_key = txt "again";
  session_id = sid;
  task_id = txt "t1";
  run_id = txt "run";
  attempt = 2;
  created = true;
}

retry_idem_example :
    retry_failed_session willing sid (txt "again") retried_db
    ≡ ok (record retried { created = false }, retried_db)
unfolding retry_failed_session retry_keyed schedule_retry latest_task trim_space get put
    Text-discrete ℕ_discrete
retry_idem_example = retry_idem willing sid (txt "again") open_db retried_db retried refl
