-- ===== src/Tests/UpgradeTests.antt =====
-- An upgrade of the small database's Sandbox, from its request to its end.
use dorf.Base.{
  ◌≡◌, refl, inl, true, none, some, List, [], ◌∷◌, Text, txt, Text-discrete, ℕ_discrete,
}
use dorf.Base.Results.{Result, ok, err, no_rows}
use dorf.Std.Strings.{trim_space, is_bounded_identity}
use dorf.Upgrade.Receipt.{
  Request, Receipt, is_valid_request, valid_checkpoint_key, valid_package_path, valid_version,
}
use dorf.Store.Table.{get, put, update}
use dorf.Store.Db.{UpgradeRow, HoldRow, Db}
use dorf.Store.Sandboxes.{find_sandbox}
use dorf.Store.Holds.{delivery_held, insert_sandbox_delivery_hold, with_delivery_hold}
use dorf.Store.Native.{begin_native_mutation}
use dorf.Store.Wakes.{
  signal_session_execution_wake, ensure_wake, revise, record_cause, emit, find_cause,
  revision_taken,
}
use dorf.Store.Upgrades.{
  find_upgrade, upgrade_quiescent, receipt_of, record_upgrade_preparation, record_upgrade_quiesced,
  record_upgrade_checkpoint, record_upgrade_activated, record_upgrade_verified,
  record_upgrade_checkpoint_deleted, record_upgrade_finished,
}
use dorf.Store.Upgrades.Facts.{
  prepared, quiesced, checkpointed, activated, verified, checkpoint_deleted, IsOrdered, Extends,
  Recording,
}
use dorf.Store.Upgrades.History.{attempt, attempt-Extends}
use dorf.Store.Custody.{
  new_upgrade, insert_sandbox_upgrade, begin_upgrade, upgrade_body, request_sandbox_upgrade,
  authorize_upgrade_release, upgrade_resources_releasable, switch_and_release,
  finish_sandbox_upgrade,
}
use dorf.Store.Custody.Acquire.{request-excludes}
use dorf.Store.Custody.Release.{finish_sound}
use dorf.Tests.Fixtures.{sid, bid, rid, the_sandbox, open_db, willing}

abbrev pub uid : Text
uid = txt "upgrade-1"

abbrev pub request : Request
request = record {
  id = uid;
  session_id = sid;
  sandbox_id = bid;
  package_path = txt "/nix/store/0123456789abcdfghijklmnpqrsvwxyz-codex-1.2.3";
  version = txt "1.20.3";
}

abbrev pub after : {A : Type 0} → Result (A × Db) → Db
after (ok (a, db)) = db
after (err e) = open_db

abbrev pub requested_db : Db
requested_db = after (request_sandbox_upgrade willing request open_db)

abbrev pub requested_row : UpgradeRow
requested_row = new_upgrade request rid 9

request-excludes_example :
    begin_native_mutation sid (txt "th") (txt "i1") [] requested_db ≡ err no_rows
unfolding request_sandbox_upgrade is_valid_request valid_checkpoint_key valid_package_path
    valid_version is_bounded_identity with_delivery_hold upgrade_body begin_upgrade
    insert_sandbox_delivery_hold insert_sandbox_upgrade delivery_held find_upgrade find_sandbox
    signal_session_execution_wake ensure_wake revise record_cause emit find_cause revision_taken get
    put Text-discrete ℕ_discrete trim_space
request-excludes_example =
    request-excludes willing request open_db requested_db
      (receipt_of uid sid open_db.resources requested_row) refl refl (txt "th") (txt "i1") []

requested_row-IsOrdered : IsOrdered requested_row
requested_row-IsOrdered = record {
  keyed = refl;
  sourced = refl;
  coded = refl;
  quiesced = inl refl;
  captured = inl refl;
  activated = inl refl;
  rolled = inl refl;
  bound = inl refl;
  restored = inl refl;
  verified = inl refl;
  recovered = inl refl;
  dropped = inl refl;
  finished = inl refl;
}

abbrev steps : List Recording
steps =
    quiesced
    ∷ prepared (txt "1.19.0")
    ∷ quiesced
    ∷ checkpointed (record { key = uid; reference = txt "ref"; source_id = txt "vm" })
    ∷ activated
    ∷ verified
    ∷ checkpoint_deleted
    ∷ []

abbrev pub verified_row : UpgradeRow
verified_row = record requested_row {
  previous_version = some (txt "1.19.0");
  quiesced_at = some 9;
  checkpoint_key = some uid;
  checkpoint_reference = some (txt "ref");
  checkpoint_source_id = some (txt "vm");
  activated_at = some 9;
  verified_at = some 9;
  checkpoint_deleted_at = some 9;
}

abbrev pub verified_db : Db
verified_db = record requested_db { upgrades = put uid verified_row requested_db.upgrades }

-- The first step of the list fails, the others succeed.
run_steps : attempt uid steps requested_db ≡ verified_db
unfolding request_sandbox_upgrade is_valid_request valid_checkpoint_key valid_package_path
    valid_version is_bounded_identity with_delivery_hold upgrade_body begin_upgrade
    insert_sandbox_delivery_hold insert_sandbox_upgrade delivery_held find_upgrade find_sandbox
    signal_session_execution_wake ensure_wake revise record_cause emit find_cause revision_taken get
    put Text-discrete ℕ_discrete trim_space attempt update record_upgrade_preparation
    record_upgrade_quiesced record_upgrade_checkpoint record_upgrade_activated
    record_upgrade_verified record_upgrade_checkpoint_deleted record_upgrade_finished
run_steps = refl

attempt-Extends_example :
    (v : UpgradeRow) × (get uid (attempt uid steps requested_db).upgrades ≡ some v)
    × IsOrdered v
    × Extends requested_row v
unfolding request_sandbox_upgrade is_valid_request valid_checkpoint_key valid_package_path
    valid_version is_bounded_identity with_delivery_hold upgrade_body begin_upgrade
    insert_sandbox_delivery_hold insert_sandbox_upgrade delivery_held find_upgrade find_sandbox
    signal_session_execution_wake ensure_wake revise record_cause emit find_cause revision_taken get
    put Text-discrete ℕ_discrete trim_space
attempt-Extends_example =
    attempt-Extends uid steps requested_db requested_row refl requested_row-IsOrdered

abbrev pub verified_receipt : Receipt
verified_receipt = receipt_of uid sid open_db.resources verified_row

abbrev finished_db : Db
finished_db = after (finish_sandbox_upgrade willing verified_receipt verified_db)

abbrev the_hold : HoldRow
the_hold = record {
  sandbox_id = bid;
  reason = txt "workspace_upgrade";
  requested_at = 9;
  released_at = none;
}

finish_sound_example : upgrade_quiescent bid verified_db ≡ ok (true, verified_db)
unfolding request_sandbox_upgrade is_valid_request valid_checkpoint_key valid_package_path
    valid_version is_bounded_identity with_delivery_hold upgrade_body begin_upgrade
    insert_sandbox_delivery_hold insert_sandbox_upgrade delivery_held find_upgrade find_sandbox
    signal_session_execution_wake ensure_wake revise record_cause emit find_cause revision_taken get
    put Text-discrete ℕ_discrete trim_space finish_sandbox_upgrade authorize_upgrade_release
    upgrade_resources_releasable switch_and_release upgrade_quiescent update record_upgrade_finished
finish_sound_example =
    (finish_sound willing verified_receipt verified_receipt verified_db finished_db the_sandbox
      the_hold verified_row refl refl refl refl refl refl).2
