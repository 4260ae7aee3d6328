-- ===== src/Tests/ServiceTests.antt =====
-- Reconciliations of the small upgrade, and attention.
use dorf.Base.{false, ◌∷◌, ◌≡◌, refl, ◌⊎◌, false, some, [], txt, Text-discrete, ℕ_discrete}
use dorf.Base.Results.{ok, err, message}
use dorf.Std.Strings.{text_before, trim_space, is_bounded_identity}
use dorf.Core.Domain.{Session, scheduled}
use dorf.Upgrade.Receipt.{
  Receipt, is_valid_request, valid_checkpoint_key, valid_package_path, valid_version,
}
use dorf.Store.Table.{get, put, update}
use dorf.Store.Db.{Db, UpgradeRow}
use dorf.Store.Sandboxes.{find_sandbox, find_sandbox_resource, find_session, session_of}
use dorf.Store.Tasks.{latest_task}
use dorf.Store.Holds.{delivery_held, insert_sandbox_delivery_hold, with_delivery_hold}
use dorf.Store.Attention.{attended, set_execution_attention, clear_execution_attention}
use dorf.Store.Attention.Ownership.{new_attention, set-protects}
use dorf.Store.Wakes.{
  signal_session_execution_wake, ensure_wake, revise, record_cause, emit, find_cause,
  revision_taken,
}
use dorf.Store.Upgrades.{find_upgrade, receipt_of}
use dorf.Store.Upgrades.Listing.{insert_ordered, receipts_in}
use dorf.Store.Custody.{
  insert_sandbox_upgrade, begin_upgrade, upgrade_body, request_sandbox_upgrade,
}
use dorf.Upgrade.Driver.{Driver}
use dorf.Effects.{
  World, checked_claim, deleted_resource, ◌>>=◌, ◌>>◌, pure, branch, refuse_if, transact, look_up,
  call,
}
use dorf.Upgrade.Service.{
  foreign_task, first_unfinished, reconcile, delete_resource, perform, save, resource_deleted,
  require_claim,
}
use dorf.Upgrade.Service.Guards.{IsReady, reconcile-IsReady}
use dorf.Upgrade.Service.Custody.{Kept}
use dorf.Upgrade.Service.Retention.{reconcile-Kept}
use dorf.Upgrade.Cleanup.{for_each, cleanup, resolve_capture, delete_inactive, prepare_cleanup}
use dorf.Upgrade.Cleanup.Ownership.{cleanup-requires}
use dorf.Upgrade.Cleanup.Serving.{Serves, prepare_cleanup-Serves}
use dorf.Tests.Fixtures.{
  closed_session, sid, bid, rid, the_sandbox, live_resource, open_session, open_db, willing,
}
use dorf.Tests.UpgradeTests.{uid, requested_db, requested_row, after}

-- Everything works but the new version's verification.
abbrev pub broken_version : Driver
broken_version = record {
  claim = λ calls. ok tt;
  inspect_package = λ calls s r. ok (txt "1.19.0");
  quiesce = λ calls s thread. ok tt;
  capture =
      λ calls s key. ok (record { key = key; reference = txt "ref"; source_id = s.provider_id });
  activate = λ calls s r. ok tt;
  replaces_resource = false;
  restore = λ calls source destination c. ok destination.provider_id;
  verify = λ calls s version thread. err (message "not ready");
  delete_resource = λ calls s. ok tt;
  delete_checkpoint = λ calls s c. ok tt;
}

abbrev world : World
world = record { db = requested_db; calls = [] }

abbrev row : Session
row = session_of requested_db sid open_session

abbrev receipt : Receipt
receipt = receipt_of uid sid open_db.resources requested_row

reconcile-IsReady_example :
    ((reconcile willing broken_version (txt "nonce") (some (txt "t1")) sid world).1 ≡ world)
    ⊎ IsReady world (some (txt "t1")) row receipt
unfolding request_sandbox_upgrade is_valid_request valid_checkpoint_key valid_package_path
    valid_version is_bounded_identity with_delivery_hold upgrade_body begin_upgrade
    insert_sandbox_delivery_hold insert_sandbox_upgrade delivery_held find_upgrade find_sandbox
    signal_session_execution_wake ensure_wake revise record_cause emit find_cause revision_taken get
    put Text-discrete ℕ_discrete trim_space find_session latest_task first_unfinished receipts_in
    insert_ordered text_before
reconcile-IsReady_example =
    reconcile-IsReady willing broken_version (txt "nonce") sid (some (txt "t1")) world row receipt
      refl refl

reconcile-Kept_example :
    Kept requested_db
      (reconcile willing broken_version (txt "nonce") (some (txt "t1")) sid world).1.db
unfolding request_sandbox_upgrade is_valid_request valid_checkpoint_key valid_package_path
    valid_version is_bounded_identity with_delivery_hold upgrade_body begin_upgrade
    insert_sandbox_delivery_hold insert_sandbox_upgrade delivery_held find_upgrade find_sandbox
    signal_session_execution_wake ensure_wake revise record_cause emit find_cause revision_taken get
    put Text-discrete ℕ_discrete trim_space find_session latest_task first_unfinished receipts_in
    insert_ordered text_before
reconcile-Kept_example =
    reconcile-Kept willing broken_version (txt "nonce") (some (txt "t1")) sid world row receipt refl
      refl refl

abbrev attended_db : Db
attended_db = after (set_execution_attention sid (txt "upgrade:u") (txt "failed") open_db)

set-protects_example :
    get sid attended_db.sessions
    ≡ some (attended (new_attention (txt "upgrade:u") (txt "failed") open_db) open_session)
unfolding set_execution_attention update get put trim_space Text-discrete ℕ_discrete
set-protects_example =
    (set-protects sid (txt "upgrade:u") (txt "failed") (txt "input") (txt "lost") open_db
      attended_db open_session refl refl (λ e. cc) (λ e. cc) (λ e. cc)).0

-- The upgrade is left when the Session's cleanup is scheduled; the driver captures nothing.
abbrev closing : World
closing = record { db = record requested_db { sessions = (sid, closed_session) ∷ [] }; calls = [] }

-- A rollback had reserved a replacement, which cleanup deletes; the active resource stays.
abbrev rolled_row : UpgradeRow
rolled_row = record requested_row {
  previous_version = some (txt "1.19.0");
  quiesced_at = some 9;
  checkpoint_key = some uid;
  checkpoint_reference = some (txt "ref");
  checkpoint_source_id = some (txt "vm");
  rollback_at = some 9;
  failure_code = some (txt "activation_failed");
  destination_resource_id = some (txt "r2");
}

abbrev rolled : World
rolled = record {
  db = record open_db {
    sessions = (sid, closed_session) ∷ [];
    resources =
        (rid, live_resource)
        ∷ (txt "r2", record live_resource { provider_id = some (txt "vm2") })
        ∷ [];
    upgrades = (uid, rolled_row) ∷ [];
  };
  calls = [];
}

deletes_replacement :
    (prepare_cleanup willing broken_version (some (txt "t1")) sid rolled).1.calls
    ≡ checked_claim ∷ deleted_resource (txt "r2") ∷ checked_claim ∷ []
unfolding prepare_cleanup cleanup for_each resolve_capture delete_inactive delete_resource perform
    save resource_deleted require_claim clear_execution_attention find_session find_sandbox
    find_sandbox_resource latest_task receipts_in insert_ordered text_before trim_space get put
    update ◌>>=◌ ◌>>◌ pure branch refuse_if transact look_up call Text-discrete ℕ_discrete
deletes_replacement = refl

prepare_cleanup-Serves_example :
    Serves bid rid the_sandbox live_resource 0
      (prepare_cleanup willing broken_version (some (txt "t1")) sid rolled).1
unfolding get Text-discrete ℕ_discrete
prepare_cleanup-Serves_example =
    prepare_cleanup-Serves bid the_sandbox live_resource 0 refl willing broken_version
      (some (txt "t1")) sid rolled (record { bound = refl; row = refl; asked = refl })

cleanup-requires_example :
    ((cleanup willing broken_version (some (txt "t9")) sid (λ r source. pure tt) closing).1
      ≡ closing)
    ⊎ ((foreign_task (some (txt "t9")) (session_of closing.db sid closed_session) ≡ false)
        × (closed_session.admission_open ≡ false)
        × (closed_session.cleanup_state ≡ scheduled))
unfolding find_session get latest_task Text-discrete ℕ_discrete
cleanup-requires_example =
    cleanup-requires willing broken_version (some (txt "t9")) sid (λ r source. pure tt) closing
      (session_of closing.db sid closed_session) refl
