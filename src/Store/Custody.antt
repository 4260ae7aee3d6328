-- ===== src/Store/Custody.antt =====
-- internal/postgres/upgrades.go: the transactions that take custody of a Sandbox for an upgrade and
-- give it back. The hold, the receipt and the wake commit together or not at all.
pub mod Release
pub mod Acquire
use dorf.Base.{
  ℕ, ◌≡◌, Bool, true, false, not, ◌&&◌, ◌||◌, Option, none, some, List, [], ◌∷◌, ◌++◌, Text, txt,
  ◌==◌, is_some,
}
use dorf.Base.Results.{ok, err, Error, no_rows, message, constraint, Done}
use dorf.Core.Domain.{Session, Sandbox, is_pending}
use dorf.Upgrade.Receipt.{Request, Checkpoint, Receipt, is_valid_request}
use dorf.Store.Table.{Table, get, put, any_row}
use dorf.Store.Holds.{
  is_held, get_sandbox_delivery_hold, insert_sandbox_delivery_hold, release_sandbox_delivery_hold,
  require_sandbox_delivery_unheld, with_delivery_hold, owner_is,
}
use dorf.Store.Wakes.{signal_session_execution_wake}
use dorf.Store.Sandboxes.{get_sandbox, switch_sandbox_resource}
use dorf.Store.Upgrades.{find_upgrade, upgrade_quiescent, record_upgrade_finished}
use dorf.Store.Native.{is_open}
use dorf.Store.Db.{
  SessionRow, ResourceRow, UpgradeRow, Db, Absurd, Tx, ◌>>=◌, ◌>>◌, pure, fail, refuse_if, branch,
  one, exec, expect_one_rows,
}

-- Go compares the requests field by field.
abbrev pub same_request : Request → Request → Bool
same_request a b =
    a.id == b.id
    && (a.session_id == b.session_id
        && (a.sandbox_id == b.sandbox_id
            && (a.package_path == b.package_path && a.version == b.version)))

abbrev pub new_upgrade : Request → Text → ℕ → UpgradeRow
new_upgrade r source now = record {
  sandbox_id = r.sandbox_id;
  source_resource_id = source;
  destination_resource_id = none;
  package_path = r.package_path;
  version = r.version;
  requested_at = now;
  previous_version = none;
  quiesced_at = none;
  checkpoint_key = none;
  checkpoint_reference = none;
  checkpoint_source_id = none;
  activated_at = none;
  rollback_at = none;
  failure_code = none;
  restored_at = none;
  verified_at = none;
  checkpoint_deleted_at = none;
  finished_at = none;
}

-- The primary key, and the foreign key to the hold of the same identity.
unfoldable pub insert_sandbox_upgrade : Request → Text → Tx Done
insert_sandbox_upgrade r source db =
    elim (is_some (get r.id db.upgrades) || not (is_some (get r.id db.holds))) [
      | true ↦ err (constraint "sandbox_upgrades")
      | false ↦
          ok (tt, record db { upgrades = put r.id (new_upgrade r source db.clock) db.upgrades })
    ]

-- `upgradeResourcesReleasable`, over the resources of the Session.
abbrev pub target_of : Receipt → Text
target_of r = elim (r.destination_resource_id == []) [
  | true ↦ r.source_resource_id
  | false ↦ r.destination_resource_id
]

abbrev pub blocks_release : Db → Receipt → Text → ResourceRow → Bool
blocks_release db r id v =
    owner_is db.sandboxes r.session_id v.sandbox_id
    && ((id == target_of r && (not (is_some v.provider_id) || is_some v.deleted_at))
        || (id == r.source_resource_id
            && (not (target_of r == r.source_resource_id) && not (is_some v.deleted_at))))

unfoldable pub upgrade_resources_releasable : Receipt → Tx Done
upgrade_resources_releasable r db = elim (any_row (blocks_release db r) db.resources) [
  | true ↦ err (message "verified destination is absent, or old resource cleanup is not verified")
  | false ↦ elim (target_of r == r.source_resource_id && not (is_some r.checkpoint_deleted_at)) [
    | true ↦ err (message "unused checkpoint cleanup is not verified")
    | false ↦ ok (tt, db)
  ]
]

-- `authorizeUpgradeRelease`.
unfoldable pub authorize_upgrade_release : Receipt → Tx Done
authorize_upgrade_release r = do
  hold ← get_sandbox_delivery_hold r.id
  refuse_if
      (not (hold.sandbox_id == r.sandbox_id) || (not (is_held hold) || not (is_some r.verified_at)))
      "upgrade requires its held verified recovery receipt"
  quiet ← upgrade_quiescent r.sandbox_id
  refuse_if (not quiet) "native delivery is not quiescent"
  upgrade_resources_releasable r

module _ (service : Absurd) where
  abbrev pub requested_cause : Request → Text
  requested_cause r = txt "upgrade:" ++ r.id

  abbrev pub finished_cause : Receipt → Text
  finished_cause r = txt "upgrade-finished:" ++ r.id

  -- The transaction's body for a request whose identity is new.
  unfoldable pub begin_upgrade : Request → SessionRow → Tx Receipt
  begin_upgrade r row = do
    refuse_if (not (is_open row)) "upgrade requires an open direct Session"
    require_sandbox_delivery_unheld r.sandbox_id
    owned ← get_sandbox r.sandbox_id
    refuse_if (owned.provider_id == []) "upgrade requires an attested existing resource"
    insert_sandbox_delivery_hold r.id r.sandbox_id
    insert_sandbox_upgrade r owned.resource_id
    n ← signal_session_execution_wake service r.session_id (requested_cause r)
    one λ db. find_upgrade db r.id

  abbrev pub replay_upgrade : Request → Receipt → Tx Receipt
  replay_upgrade r found = do
    refuse_if (not (same_request found.request r)) "upgrade identity already has different input"
    pure found

  unfoldable pub upgrade_body : Request → SessionRow → Tx Receipt
  upgrade_body r row db = elim (find_upgrade db r.id) [
    | some found ↦ replay_upgrade r found db
    | none ↦ begin_upgrade r row db
  ]

  -- `RequestSandboxUpgrade`.
  unfoldable pub request_sandbox_upgrade : Request → Tx Receipt
  request_sandbox_upgrade r = do
    refuse_if (not (is_valid_request r)) "upgrade requires exact identities"
    with_delivery_hold r.session_id r.sandbox_id r.id (upgrade_body r)

  -- `switchAndReleaseUpgrade`.
  unfoldable pub switch_and_release : Receipt → Tx Done
  switch_and_release r = do
    expect_one_rows (switch_sandbox_resource r.sandbox_id r.source_resource_id (target_of r))
    record_upgrade_finished r.id
    expect_one_rows (release_sandbox_delivery_hold r.id r.sandbox_id)
    n ← signal_session_execution_wake service r.session_id (finished_cause r)
    pure tt

  -- `FinishSandboxUpgrade`: a receipt that is finished stays as it is.
  unfoldable pub finish_sandbox_upgrade : Receipt → Tx Done
  finish_sandbox_upgrade expected = do
    row ← one λ db. get expected.session_id db.sessions
    refuse_if (not (is_open row)) "upgrade release requires open admission"
    r ← one λ db. find_upgrade db expected.id
    refuse_if
        (not (same_request r.request expected.request)
          || (not (r.source_resource_id == expected.source_resource_id)
              || not (r.destination_resource_id == expected.destination_resource_id)))
        "upgrade custody changed"
    branch (is_some r.finished_at) (pure tt) (do authorize_upgrade_release r; switch_and_release r)
