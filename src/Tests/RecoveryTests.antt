-- ===== src/Tests/RecoveryTests.antt =====
-- A recovery of the small database's Sandbox, from its request to its end.
use dorf.Base.{
  ◌≡◌, ◌≢◌, ◌⊎◌, refl, false, none, some, [], ◌∷◌, Text, txt, Text-discrete, ℕ_discrete,
}
use dorf.Base.Results.{ok, err, no_rows, message, Done}
use dorf.Std.Strings.{trim_space, is_bounded_identity}
use dorf.Persistence.Recovery.{RecoveryRequest, RecoveryReceipt, are_exact_identities, is_snapshot}
use dorf.Store.Table.{get, put, update}
use dorf.Store.Db.{CheckpointRow, RecoveryRow, HoldRow, Db, Tx, ◌>>=◌, ◌>>◌, expect_one_rows}
use dorf.Store.Sandboxes.{
  find_sandbox, find_session, reserve_sandbox_resource, record_resource_deleted,
}
use dorf.Store.Tasks.{latest_task}
use dorf.Store.Holds.{delivery_held, with_delivery_hold}
use dorf.Store.Wakes.{
  signal_session_execution_wake, ensure_wake, revise, record_cause, emit, find_cause,
  revision_taken,
}
use dorf.Store.Recovery.{
  find_checkpoint, recovery_receipt, find_recovery, authorize_recovery_request, new_recovery,
  insert_checkpoint_recovery, replacement_of, insert_recovery_request, recovery_native_safe,
  record_recovery_restored, record_recovery_verified, record_recovery_finished,
  authorize_recovery_release, validate_recovery, begin_recovery, recovery_body,
  request_checkpoint_recovery, switch_and_release_recovery, finish_checkpoint_recovery,
}
use dorf.Store.Recovery.Release.{IsRecovered, recovery-IsRecovered}
use dorf.Store.Recovery.Replay.{request-replays}
use dorf.Store.Recovery.{can_abandon, abandon_recovery_for_cleanup}
use dorf.Store.Recovery.Abandon.{abandon-requires}
use dorf.Store.Recovery.Acquire.{recovery-excludes}
use dorf.Store.Native.{begin_native_mutation}
use dorf.Store.Upgrades.{upgrade_quiescent}
use dorf.Store.Db.{ResourceRow}
use dorf.Tests.Fixtures.{
  sid, bid, rid, the_sandbox, open_session, open_db, willing, closed_session, live_resource,
}
use dorf.Tests.UpgradeTests.{after}

abbrev snapshot : Text
snapshot = txt "0123456789abcdef0123456789abcdef0123456789abcdef0123456789abcdef"

abbrev published : CheckpointRow
published = record {
  repository = txt "main";
  snapshot_id = snapshot;
  sandbox_id = bid;
  resource_id = rid;
  profile_name = txt "base";
  profile_revision = txt "1";
  effective_upgrade_id = none;
  last_activity_at = 6;
  native_revision = 3;
  delivery_hold_count = 0;
  cleanup = false;
  published_at = 7;
}

abbrev kept_db : Db
kept_db = record open_db { checkpoints = published ∷ [] }

abbrev rec : Text
rec = txt "rec"

abbrev wanted : RecoveryRequest
wanted = record {
  id = rec;
  session_id = sid;
  sandbox_id = bid;
  repository = txt "main";
  snapshot_id = snapshot;
}

-- Requested, restored and verified, and the old resource deleted.
abbrev replace : Tx Done
replace = do
  r ← request_checkpoint_recovery willing wanted (txt "n2")
  record_recovery_restored r (txt "vm2")
  record_recovery_verified rec
  expect_one_rows (record_resource_deleted rid bid)

abbrev ready_db : Db
ready_db = after (replace kept_db)

abbrev ready_row : RecoveryRow
ready_row = record (new_recovery wanted rid (replacement_of rec) 9) { verified_at = some 9 }

abbrev ready_receipt : RecoveryReceipt
ready_receipt = recovery_receipt ready_db rec sid ready_row published

abbrev recovery_hold : HoldRow
recovery_hold = record {
  sandbox_id = bid;
  reason = txt "checkpoint_recovery";
  requested_at = 9;
  released_at = none;
}

abbrev recovered_db : Db
recovered_db = after (finish_checkpoint_recovery willing ready_receipt ready_db)

recovery-IsRecovered_example :
    IsRecovered ready_receipt open_session open_session recovery_hold
    × (get bid recovered_db.sandboxes
        ≡ some (record the_sandbox { active_resource_id = replacement_of rec }))
    × (the_sandbox.active_resource_id ≡ rid)
    × (get rec recovered_db.holds ≡ some (record recovery_hold { released_at = some 9 }))
    × (get rec recovered_db.recoveries ≡ some (record ready_row { finished_at = some 9 }))
unfolding request_checkpoint_recovery validate_recovery are_exact_identities is_snapshot
    is_bounded_identity trim_space with_delivery_hold recovery_body begin_recovery
    authorize_recovery_request find_checkpoint find_session find_sandbox latest_task delivery_held
    insert_recovery_request reserve_sandbox_resource insert_checkpoint_recovery find_recovery
    signal_session_execution_wake ensure_wake revise record_cause emit find_cause revision_taken
    record_recovery_restored record_recovery_verified record_recovery_finished
    finish_checkpoint_recovery authorize_recovery_release recovery_native_safe
    switch_and_release_recovery get put update Text-discrete ℕ_discrete
recovery-IsRecovered_example =
    recovery-IsRecovered willing ready_receipt ready_receipt ready_db recovered_db open_session
      open_session the_sandbox recovery_hold ready_row refl refl refl refl refl refl refl refl

abbrev other_request : RecoveryRequest
other_request = record wanted { repository = txt "second" }

request-replays_example :
    ((wanted ≡ other_request)
      × (request_checkpoint_recovery willing other_request (txt "n3") ready_db
          ≡ ok (ready_receipt, ready_db)))
    ⊎ ((wanted ≢ other_request)
        × (request_checkpoint_recovery willing other_request (txt "n3") ready_db
            ≡ err (message "recovery identity already has different input")))
unfolding request_checkpoint_recovery validate_recovery are_exact_identities is_snapshot
    is_bounded_identity trim_space with_delivery_hold recovery_body begin_recovery
    authorize_recovery_request find_checkpoint find_session find_sandbox latest_task delivery_held
    insert_recovery_request reserve_sandbox_resource insert_checkpoint_recovery find_recovery
    signal_session_execution_wake ensure_wake revise record_cause emit find_cause revision_taken
    record_recovery_restored record_recovery_verified get put update Text-discrete ℕ_discrete
request-replays_example =
    request-replays willing other_request (txt "n3") ready_db ready_receipt open_session the_sandbox
      refl refl refl refl refl

-- The Session is closed, and the replacement deleted.
abbrev gone : ResourceRow
gone = record live_resource { deleted_at = some 9 }

abbrev given_up : Db
given_up = record kept_db {
  sessions = (sid, closed_session) ∷ [];
  resources = (rid, live_resource) ∷ (replacement_of rec, gone) ∷ [];
  holds = (rec, recovery_hold) ∷ [];
  recoveries = (rec, new_recovery wanted rid (replacement_of rec) 9) ∷ [];
}

abandon-requires_example :
    after (abandon_recovery_for_cleanup ready_receipt given_up) ≡ record given_up {
      holds = put rec (record recovery_hold { released_at = some 9 }) given_up.holds;
    }
unfolding abandon_recovery_for_cleanup can_abandon upgrade_quiescent request_checkpoint_recovery
    validate_recovery are_exact_identities is_snapshot is_bounded_identity trim_space
    with_delivery_hold recovery_body begin_recovery authorize_recovery_request find_checkpoint
    find_session find_sandbox latest_task delivery_held insert_recovery_request
    reserve_sandbox_resource insert_checkpoint_recovery find_recovery signal_session_execution_wake
    ensure_wake revise record_cause emit find_cause revision_taken record_recovery_restored
    record_recovery_verified get put update Text-discrete ℕ_discrete
abandon-requires_example =
    (abandon-requires ready_receipt given_up
      (after (abandon_recovery_for_cleanup ready_receipt given_up))
      (new_recovery wanted rid (replacement_of rec) 9) the_sandbox closed_session gone recovery_hold
      refl refl refl refl refl refl).5

abbrev wanted_db : Db
wanted_db = after (request_checkpoint_recovery willing wanted (txt "n2") kept_db)

abbrev wanted_row : RecoveryRow
wanted_row = new_recovery wanted rid (replacement_of rec) 9

recovery-excludes_example :
    begin_native_mutation sid (txt "th") (txt "i1") [] wanted_db ≡ err no_rows
unfolding request_checkpoint_recovery validate_recovery are_exact_identities is_snapshot
    is_bounded_identity trim_space with_delivery_hold recovery_body begin_recovery
    authorize_recovery_request find_checkpoint find_session find_sandbox latest_task delivery_held
    insert_recovery_request reserve_sandbox_resource insert_checkpoint_recovery find_recovery
    signal_session_execution_wake ensure_wake revise record_cause emit find_cause revision_taken get
    put Text-discrete ℕ_discrete
recovery-excludes_example =
    recovery-excludes willing wanted (txt "n2") kept_db wanted_db
      (recovery_receipt wanted_db rec sid wanted_row published) refl refl (txt "th") (txt "i1") []
